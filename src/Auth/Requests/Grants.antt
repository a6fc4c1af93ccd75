-- ===== src/Auth/Requests/Grants.antt =====
-- Trusted contexts, and what the granting of no right means.
use samizdat.Prelude.{
  ◌||◌, ◌==◌, ==_iff, ap₂, ℕ, ◌≡◌, ◌↔◌, ◌⊎◌, inl, inr, refl, ap, ◌∙◌, Bool, true, false, List, [],
  ◌∷◌, Option, none, some, arith, Bool-cases,
}
use samizdat.Text.{Str}
use samizdat.Store.{Table}
use samizdat.Access.{AccessRight, rank, right_eq, Entity, from_path}
use samizdat.Auth.{RightsCodec, contains, ok, granted_rights, read_rights, read_answer, patch_auth}
use samizdat.Auth.Granting.{IsLawful, patch_auth-IsGranted}
use samizdat.Auth.Requests.{
  Origin, extract, Referer, absent, malformed, given, Request, OrFilter, is_local, any_required,
  check_origin, is_trusted_context, authenticate_trusted_context, authenticate_only_trusted,
  authenticate,
}
use samizdat.Auth.Requests.Passing.{
  HasToken, settle-extract, or_passes, authorization-HasToken, HasToken-authorization,
  authorization-reject, no_header_rejects, authenticate_iff,
}

or_true : (a : Bool) → (a || true) ≡ true
or_true true = refl
or_true false = refl

contains_same :
    (xs : List AccessRight) (a b : AccessRight) → rank a ≡ rank b → contains xs a ≡ contains xs b
contains_same [] a b e = refl
contains_same (x ∷ xs) a b e = ap₂ (λ n c. (rank x == n) || c) e (contains_same xs a b e)

ok_is : (a b : List AccessRight) → ok a ≡ ok b → a ≡ b
ok_is a b h = cc (h)

read_answer-ok :
    (o : Option (List AccessRight)) (granted : List AccessRight)
    → read_answer o ≡ ok granted
    → o ≡ some granted
read_answer-ok none granted h = absurd (cc (h))
read_answer-ok (some rights) granted h = ap some (ok_is rights granted h)

-- Rights that are not empty have been read from the table.
read_rights-ok :
    (codec : RightsCodec) (o : Option (List ℕ)) (right : AccessRight) (granted : List AccessRight)
    → read_rights codec o ≡ ok granted
    → contains granted right ≡ true
    → (serialized : List ℕ) × (o ≡ some serialized)
      × (codec.decode_rights serialized ≡ some granted)
read_rights-ok codec none right granted h k = absurd (cc (rw (← ok_is [] granted h) at k))
read_rights-ok codec (some serialized) right granted h k =
    (serialized, refl, read_answer-ok (codec.decode_rights serialized) granted h)

module _ {Url : Type 0} (origin : Url → Origin) (path : Url → Str) where
  -- The request has no Authorization header, and its Referer has a local origin and the trusted path.
  pub record IsTrusted (request : Request Url) : Type 0 where
    pub no_header : request.authorization ≡ none
    pub url : Url
    pub sent : request.referer ≡ given url
    pub local : is_local (origin url) ≡ true
    pub trusted : is_trusted_context origin path url ≡ true

  trusted_url :
      (url : Url)
      → (authenticate_trusted_context origin path (given url) ≡ extract none)
        ↔ ((is_local (origin url) ≡ true) × (is_trusted_context origin path url ≡ true))
  unfolding authenticate_trusted_context check_origin
  trusted_url url = (λ h. ground arith, λ h. ground arith)

  trusted_referer :
      (referer : Referer Url)
      → authenticate_trusted_context origin path referer ≡ extract none
      → (url : Url) × (referer ≡ given url)
  unfolding authenticate_trusted_context
  trusted_referer absent h = absurd (cc (h))
  trusted_referer malformed h = absurd (cc (h))
  trusted_referer (given url) h = (url, refl)

  -- A request passes `authenticate_only_trusted` exactly if it has the node's token in its Authorization
  -- header, or if it has no such header and its Referer has a local origin and the path `/_register`.
  pub authenticate_only_trusted_iff :
      (f : OrFilter Url) (access_token : Str) (request : Request Url)
      → (authenticate_only_trusted origin path f access_token request ≡ extract tt)
        ↔ (HasToken access_token request ⊎ IsTrusted request)
  unfolding authenticate_only_trusted
  authenticate_only_trusted_iff f access_token request = (
    λ h. elim (or_passes origin path f _ _ (settle-extract origin path _ h)) [
      | inl token ↦ inl (authorization-HasToken origin path access_token request token)
      | inr ((r, e), context) ↦
          let (url, sent) = trusted_referer request.referer context in
          let (local, trusted) = (trusted_url url).0 (rw sent at context) in
          inr record {
            no_header = authorization-reject origin path access_token request.authorization r e;
            url = url;
            sent = sent;
            local = local;
            trusted = trusted;
          }
    ],
    λ h. elim h [
      | inl token ↦
          rw (HasToken-authorization origin path access_token request token)
            (rw (f.or-extract none _) refl)
      | inr t ↦ rw (no_header_rejects origin path access_token request t.no_header) (
          rw t.sent
            (rw ((trusted_url t.url).1 (t.local, t.trusted)) (rw (f.or-second _ none) refl)))
    ],
  )

  nothing_required : (granted : List AccessRight) → any_required [] granted ≡ false
  nothing_required [] = refl
  nothing_required (right ∷ granted) = nothing_required granted

  -- `authenticate([])`, the filter of `delete_auth`, is passed exactly with the node's token: no entity
  -- passes it, whatever it was granted.
  pub authenticate-no_rights :
      (codec : RightsCodec) (f : OrFilter Url) (access_token : Str) (rights : Table)
      (request : Request Url)
      → (authenticate origin path codec f access_token rights [] request ≡ extract tt)
        ↔ HasToken access_token request
  authenticate-no_rights codec f access_token rights request =
      let whole = authenticate_iff origin path codec f access_token rights [] request in
      (
        λ h. elim (whole.0 h) [
          | inl token ↦ token
          | inr scope ↦ absurd (cc (scope.enough, nothing_required scope.granted))
        ],
        λ token. whole.1 (inl token),
      )

  any_required-contains :
      (required granted : List AccessRight) (right : AccessRight)
      → contains required right ≡ true
      → contains granted right ≡ true
      → any_required required granted ≡ true
  any_required-contains required [] right h k = absurd (cc (k))
  any_required-contains required (x ∷ granted) right h k = elim (Bool-cases (right_eq x right)) [
    | inl e ↦ rw (contains_same required x right ((==_iff (rank x) (rank right)).0 e) ∙ h) refl
    | inr e ↦
        rw (any_required-contains required granted right h (rw e at k))
          (or_true (contains required x))
  ]

  -- After `patch_auth` has granted rights to the entity that a path names, a request with no
  -- Authorization header, whose Referer has a local origin and an untrusted path that names the same
  -- entity, passes `authenticate` for any list of rights that holds one of the granted ones.
  pub patch_auth-authenticate :
      (codec : RightsCodec) (f : OrFilter Url) (access_token : Str) (rights : Table)
      (required more current : List AccessRight) (right : AccessRight) (tail : Str)
      (entity : Entity) (url : Url)
      → IsLawful codec
      → from_path tail ≡ some entity
      → granted_rights codec rights entity ≡ ok current
      → contains more right ≡ true
      → contains required right ≡ true
      → is_local (origin url) ≡ true
      → is_trusted_context origin path url ≡ false
      → from_path (path url) ≡ some entity
      → authenticate origin path codec f access_token
          (patch_auth codec rights tail more).0
          required
          (record { authorization = none; referer = given url })
        ≡ extract tt
  patch_auth-authenticate codec f access_token rights required more current right tail entity url
        lawful names reads new wanted local untrusted same =
      let after = (patch_auth codec rights tail more).0 in
      let g = (patch_auth-IsGranted codec lawful rights tail entity current more names reads).1 in
      let held =
        g.members right
        ∙ ap (λ b. contains current right || b) new
        ∙ or_true (contains current right) in
      let (serialized, stored, read) =
        read_rights-ok codec (after (codec.encode_entity entity)) right g.granted
          (unfold granted_rights in g.reads) held in
      (authenticate_iff origin path codec f access_token after required _).1 (
        inr record {
          no_header = refl;
          url = url;
          entity = entity;
          serialized = serialized;
          granted = g.granted;
          sent = refl;
          local = local;
          untrusted = untrusted;
          names = same;
          stored = stored;
          read = read;
          enough = any_required-contains required g.granted right wanted held;
        })

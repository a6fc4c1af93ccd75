-- ===== src/Auth/Requests/Passing.antt =====
-- Which requests pass the filters.
use samizdat.Prelude.{
  ℕ, ◌≡◌, ◌↔◌, ◌⊎◌, inl, inr, refl, ap, sym, ◌∙◌, true, false, List, Option, none, some, arith,
  if◌then◌else◌, Bool-cases,
}
use samizdat.Hash.{hash_eq, hash_eq_iff}
use samizdat.Text.{Str}
use samizdat.Store.{Table}
use samizdat.Access.{AccessRight, Entity, from_path}
use samizdat.Auth.{RightsCodec}
use samizdat.Auth.Requests.{
  Origin, is_local, Forbidden, Rejection, Outcome, unauthorized, no_token, insufficient_privilege,
  extract, reject, panic, Checked, Referer, absent, malformed, given, Request, OrFilter, token_of,
  any_required, check_origin, is_trusted_context, entity_from_referrer, scope_of, security_scope,
  authenticate_authorization, settle, check_rights, check_entity, authenticate_security_scope,
  authenticate,
}

-- The request has the node's token in its Authorization header.
pub record HasToken {Url : Type 0} (access_token : Str) (request : Request Url) : Type 0 where
  pub header : Str
  pub sent : request.authorization ≡ some header
  pub right_token : token_of header ≡ access_token

module _ {Url : Type 0} (origin : Url → Origin) (path : Url → Str) where
  pub settle-extract : (o : Checked Url) → settle origin path o ≡ extract tt → o ≡ extract none
  settle-extract (extract none) h = refl
  settle-extract (extract (some error)) h = absurd (cc (h))
  settle-extract (reject r) h = absurd (cc (h))
  settle-extract panic h = absurd (cc (h))

  -- Of two checks the second counts only if the first rejects.
  pub or_passes :
      (f : OrFilter Url) (a b : Checked Url)
      → f.or_ a b ≡ extract none
      → (a ≡ extract none) ⊎ (((r : Rejection Url) × (a ≡ reject r)) × (b ≡ extract none))
  or_passes f (extract x) b h = inl (sym (f.or-extract x b) ∙ h)
  or_passes f panic b h = absurd (cc (h, f.or-panic b))
  or_passes f (reject r) (extract x) h = inr ((r, refl), sym (f.or-second r x) ∙ h)
  or_passes f (reject r) panic h = absurd (cc (h, f.or-second_panic r))
  or_passes f (reject r) (reject s) h = absurd (cc (h, (f.or-both r s).1))

  pub authorization-HasToken :
      (access_token : Str) (request : Request Url)
      → authenticate_authorization origin path access_token request.authorization ≡ extract none
      → HasToken access_token request
  authorization-HasToken access_token request h = sent request.authorization refl h
    where
      sent :
          (header : Option Str)
          → request.authorization ≡ header
          → authenticate_authorization origin path access_token header ≡ extract none
          → HasToken access_token request
      sent none e k = unfold authenticate_authorization in absurd (cc (k))
      sent (some header) e k =
          unfold authenticate_authorization in
          elim (Bool-cases (hash_eq (token_of header) access_token)) [
            | inl same ↦ record {
              header = header;
              sent = e;
              right_token = (hash_eq_iff (token_of header) access_token).0 same;
            }
            | inr different ↦ absurd (cc (rw different at k))
          ]

  pub HasToken-authorization :
      (access_token : Str) (request : Request Url)
      → HasToken access_token request
      → authenticate_authorization origin path access_token request.authorization ≡ extract none
  unfolding authenticate_authorization
  HasToken-authorization access_token request t =
      rw (t.sent, (hash_eq_iff (token_of t.header) access_token).1 t.right_token) refl

  -- Only a missing header is rejected.
  pub authorization-reject :
      (access_token : Str) (authorization : Option Str) (r : Rejection Url)
      → authenticate_authorization origin path access_token authorization ≡ reject r
      → authorization ≡ none
  unfolding authenticate_authorization
  authorization-reject access_token none r h = refl
  authorization-reject access_token (some header) r h = absurd (cc (h))

  pub no_header_rejects :
      (access_token : Str) (request : Request Url)
      → request.authorization ≡ none
      → authenticate_authorization origin path access_token request.authorization
        ≡ reject (unauthorized no_token)
  unfolding authenticate_authorization
  no_header_rejects access_token request h = rw h refl

  entity_from_referrer_lem :
      (url : Url) (entity : Entity)
      → (entity_from_referrer origin path url ≡ inr (some entity)) ↔ (
          (is_local (origin url) ≡ true)
          × (is_trusted_context origin path url ≡ false)
          × (from_path (path url) ≡ some entity))
  unfolding entity_from_referrer check_origin
  entity_from_referrer_lem url entity = (λ h. ground arith, λ h. ground arith)

  module _ (codec : RightsCodec) where
    open codec use {encode_entity, decode_rights}

    -- The request has no Authorization header, and a Referer with a local origin and a path that is
    -- not the trusted one, which names an entity to which the table grants a required right.
    pub record HasScope (rights : Table) (required : List AccessRight) (request : Request Url)
        : Type 0 where
      pub no_header : request.authorization ≡ none
      pub url : Url
      pub entity : Entity
      pub serialized : List ℕ
      pub granted : List AccessRight
      pub sent : request.referer ≡ given url
      pub local : is_local (origin url) ≡ true
      pub untrusted : is_trusted_context origin path url ≡ false
      pub names : from_path (path url) ≡ some entity
      pub stored : rights (encode_entity entity) ≡ some serialized
      pub read : decode_rights serialized ≡ some granted
      pub enough : any_required required granted ≡ true

    -- What a check of an entity that finds no error has read.
    record Allowed (rights : Table) (required : List AccessRight) (entity : Entity) : Type 0 where
      pub serialized : List ℕ
      pub granted : List AccessRight
      pub stored : rights (encode_entity entity) ≡ some serialized
      pub read : decode_rights serialized ≡ some granted
      pub enough : any_required required granted ≡ true

    check_rights-Allowed :
        (rights : Table) (required : List AccessRight) (entity : Entity) (o : Option (List ℕ))
        → rights (encode_entity entity) ≡ o
        → check_rights origin path codec required o ≡ extract none
        → Allowed rights required entity
    check_rights-Allowed rights required entity none e h = absurd (cc (h))
    check_rights-Allowed rights required entity (some serialized) e h =
        at_bytes (decode_rights serialized) refl h
      where
        at_bytes :
            (o : Option (List AccessRight))
            → decode_rights serialized ≡ o
            → ◌≡◌ {A = Checked Url}
                (elim o [
                  | none ↦ panic
                  | some granted ↦
                      extract (
                        if any_required required granted then none else some insufficient_privilege)
                ])
                (extract none)
            → Allowed rights required entity
        at_bytes none d k = absurd (cc (k))
        at_bytes (some granted) d k = elim (Bool-cases (any_required required granted)) [
          | inl enough ↦ record {
            serialized = serialized;
            granted = granted;
            stored = e;
            read = d;
            enough = enough;
          }
          | inr short ↦ absurd (cc (rw short at k))
        ]

    check_entity-Allowed :
        (rights : Table) (required : List AccessRight) (scope : Outcome Url Entity)
        → check_entity origin path codec rights required scope ≡ extract none
        → (entity : Entity) × (scope ≡ extract entity) × Allowed rights required entity
    check_entity-Allowed rights required (reject r) h = absurd (cc (h))
    check_entity-Allowed rights required panic h = absurd (cc (h))
    check_entity-Allowed rights required (extract entity) h =
        (entity, refl, check_rights-Allowed rights required entity _ refl h)

    security_scope-extract :
        (referer : Referer Url) (entity : Entity)
        → security_scope origin path referer ≡ extract entity
        → (url : Url) × (referer ≡ given url)
          × (entity_from_referrer origin path url ≡ inr (some entity))
    unfolding security_scope
    security_scope-extract absent entity h = absurd (cc (h))
    security_scope-extract malformed entity h = absurd (cc (h))
    security_scope-extract (given url) entity h =
        (url, refl, found (entity_from_referrer origin path url) h)
      where
        found :
            (o : Forbidden Url ⊎ Option Entity)
            → scope_of origin path url o ≡ extract entity
            → o ≡ inr (some entity)
        found (inl error) k = absurd (cc (k))
        found (inr none) k = absurd (cc (k))
        found (inr (some other)) k = ap (λ e. inr (some e)) (cc (k))

    HasScope-security_scope :
        (rights : Table) (required : List AccessRight) (request : Request Url)
        → HasScope rights required request
        → authenticate_security_scope origin path codec rights required request.referer
          ≡ extract none
    unfolding authenticate_security_scope security_scope
    HasScope-security_scope rights required request s =
        let found = (entity_from_referrer_lem s.url s.entity).1 (s.local, s.untrusted, s.names) in
        rw s.sent (rw found (rw s.stored (ground arith)))

    security_scope-HasScope :
        (rights : Table) (required : List AccessRight) (request : Request Url)
        → request.authorization ≡ none
        → authenticate_security_scope origin path codec rights required request.referer
          ≡ extract none
        → HasScope rights required request
    unfolding authenticate_security_scope
    security_scope-HasScope rights required request n h =
        let (entity, e, allowed) = check_entity-Allowed rights required _ h in
        let (url, sent, found) = security_scope-extract request.referer entity e in
        let (local, untrusted, names) = (entity_from_referrer_lem url entity).0 found in
        record {
          no_header = n;
          url = url;
          entity = entity;
          serialized = allowed.serialized;
          granted = allowed.granted;
          sent = sent;
          local = local;
          untrusted = untrusted;
          names = names;
          stored = allowed.stored;
          read = allowed.read;
          enough = allowed.enough;
        }

    -- A request passes `authenticate` exactly if it has the node's token in its Authorization header, or
    -- if it has no such header and its Referer has a local origin and an untrusted path that names an
    -- entity to which the table grants one of the required rights.
    pub authenticate_iff :
        (f : OrFilter Url) (access_token : Str) (rights : Table) (required : List AccessRight)
        (request : Request Url)
        → (authenticate origin path codec f access_token rights required request ≡ extract tt)
          ↔ (HasToken access_token request ⊎ HasScope rights required request)
    unfolding authenticate
    authenticate_iff f access_token rights required request = (
      λ h. elim (or_passes f _ _ (settle-extract _ h)) [
        | inl token ↦ inl (authorization-HasToken access_token request token)
        | inr ((r, e), scope) ↦ inr (
            security_scope-HasScope rights required request
              (authorization-reject access_token request.authorization r e) scope)
      ],
      λ h. elim h [
        | inl token ↦
            rw (HasToken-authorization access_token request token) (rw (f.or-extract none _) refl)
        | inr scope ↦ rw (no_header_rejects access_token request scope.no_header) (
            rw (HasScope-security_scope rights required request scope)
              (rw (f.or-second _ none) refl))
      ],
    )

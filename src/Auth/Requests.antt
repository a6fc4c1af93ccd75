-- ===== src/Auth/Requests.antt =====
-- node/src/http/auth.rs: the filters that authenticate requests. What a filter extracts, or why it
-- rejects the request, is an outcome. URLs are those of the crate `url`: of one the filters read the
-- origin and the path.
pub mod Passing
pub mod Grants
use samizdat.Prelude.{
  ℕ, zero, suc, ◌/◌, ◌≡◌, Bool, true, false, not, ◌&&◌, ◌||◌, ◌⊎◌, inl, inr, List, [], ◌∷◌, ◌++◌,
  Option, none, some, ◌==◌, if◌then◌else◌, length,
}
use samizdat.Hash.{hash_eq}
use samizdat.Text.{Str}
use samizdat.Store.{Table}
use samizdat.Access.{AccessRight, Entity, from_path}
use samizdat.Auth.{contains, RightsCodec}

-- `url::Host` and `url::Origin`, whose variants the source names. An IPv4 address is its first byte
-- and the others, an IPv6 address its eight groups of 16 bits.
pub data Host : Type 0 where
  domain : Str → Host
  ipv4 : ℕ → List ℕ → Host
  ipv6 : List ℕ → Host

pub data Origin : Type 0 where
  opaque_origin : ℕ → Origin
  tuple : Str → Host → ℕ → Origin

abbrev pub http : Str
http = b'h' ∷ b't' ∷ b't' ∷ b'p' ∷ []

abbrev pub https : Str
https = b'h' ∷ b't' ∷ b't' ∷ b'p' ∷ b's' ∷ []

abbrev pub localhost : Str
localhost = b'l' ∷ b'o' ∷ b'c' ∷ b'a' ∷ b'l' ∷ b'h' ∷ b'o' ∷ b's' ∷ b't' ∷ []

-- `/_register`
abbrev pub register_path : Str
register_path = b'/' ∷ b'_' ∷ b'r' ∷ b'e' ∷ b'g' ∷ b'i' ∷ b's' ∷ b't' ∷ b'e' ∷ b'r' ∷ []

-- `ip.to_canonical().is_loopback()`: `::1`, or an IPv4 loopback address behind `::ffff:`.
abbrev pub is_loopback_v6 : List ℕ → Bool
is_loopback_v6 (a ∷ b ∷ c ∷ d ∷ e ∷ f ∷ g ∷ h ∷ []) =
    hash_eq (a ∷ b ∷ c ∷ d ∷ e ∷ []) (0 ∷ 0 ∷ 0 ∷ 0 ∷ 0 ∷ [])
    && (f == 65535 && (g / 256) == 127 || f == 0 && (g == 0 && h == 1))
is_loopback_v6 _ = false

abbrev pub is_local_host : Host → Bool
is_local_host (domain name) = hash_eq name localhost
is_local_host (ipv4 first rest) = first == 127
is_local_host (ipv6 groups) = is_loopback_v6 groups

unfoldable pub is_local : Origin → Bool
is_local (opaque_origin n) = false
is_local (tuple scheme host port) =
    (hash_eq scheme http || hash_eq scheme https) && is_local_host host

pub data Unauthorized : Type 0 where
  missing_referer no_token : Unauthorized

pub data Forbidden (Url : Type 0) : Type 0 where
  bad_token : Str → Forbidden Url
  bad_origin : Origin → Forbidden Url
  not_entity : Str → Forbidden Url
  trusted_context not_trusted_context : Url → Forbidden Url
  insufficient_privilege : Forbidden Url

pub data Rejection (Url : Type 0) : Type 0 where
  unauthorized : Unauthorized → Rejection Url
  forbidden : Forbidden Url → Rejection Url
  missing_header invalid_header : Rejection Url
  combined : Rejection Url → Rejection Url → Rejection Url

pub data Outcome (Url A : Type 0) : Type 0 where
  extract : A → Outcome Url A
  reject : Rejection Url → Outcome Url A
  panic : Outcome Url A

-- The header Referer, which is read as a URL.
pub data Referer (Url : Type 0) : Type 0 where
  absent malformed : Referer Url
  given : Url → Referer Url

-- The two headers; an Authorization that is not text counts as none.
pub record Request (Url : Type 0) : Type 0 where
  pub authorization : Option Str
  pub referer : Referer Url

-- What a check extracts is the error that it found, if any.
abbrev pub Checked : Type 0 → Type 0
Checked Url = Outcome Url (Option (Forbidden Url))

-- `or` and `unify` of the crate `warp`: the second filter runs if the first rejects.
pub record OrFilter (Url : Type 0) : Type 0 where
  pub or_ : Checked Url → Checked Url → Checked Url
  pub or-extract : (a : Option (Forbidden Url)) (o : Checked Url) → or_ (extract a) o ≡ extract a
  pub or-panic : (o : Checked Url) → or_ panic o ≡ panic
  pub or-second :
      (r : Rejection Url) (a : Option (Forbidden Url)) → or_ (reject r) (extract a) ≡ extract a
  pub or-second_panic : (r : Rejection Url) → or_ (reject r) panic ≡ panic
  pub or-both :
      (r s : Rejection Url) → (both : Rejection Url) × (or_ (reject r) (reject s) ≡ reject both)

-- `strip_prefix`
abbrev pub strip_prefix : Str → Str → Option Str
strip_prefix [] s = some s
strip_prefix (c ∷ prefix) [] = none
strip_prefix (c ∷ prefix) (d ∷ s) =
    let rest = strip_prefix prefix s in if c == d then rest else none

-- `trim_start_matches`: as often as the text starts with the prefix, on fuel.
abbrev pub trim_loop : ℕ → Str → Str → Str
trim_loop zero prefix s = s
trim_loop (suc fuel) prefix s = elim (strip_prefix prefix s) [
  | none ↦ s
  | some rest ↦ trim_loop fuel prefix rest
]

abbrev pub trim_start_matches : Str → Str → Str
trim_start_matches prefix s = trim_loop (length s) prefix s

-- `Bearer ` and `bearer `
abbrev pub upper_bearer : Str
upper_bearer = b'B' ∷ b'e' ∷ b'a' ∷ b'r' ∷ b'e' ∷ b'r' ∷ b' ' ∷ []

abbrev pub lower_bearer : Str
lower_bearer = b'b' ∷ b'e' ∷ b'a' ∷ b'r' ∷ b'e' ∷ b'r' ∷ b' ' ∷ []

abbrev pub token_of : Str → Str
token_of authorization =
    trim_start_matches lower_bearer (trim_start_matches upper_bearer authorization)

-- `granted_rights.iter().any(|right| required_rights.contains(right))`
abbrev pub any_required : List AccessRight → List AccessRight → Bool
any_required required [] = false
any_required required (right ∷ granted) = contains required right || any_required required granted

module _ {Url : Type 0} (origin : Url → Origin) (path : Url → Str) where
  -- The error, if any.
  unfoldable pub check_origin : Url → Option (Forbidden Url)
  check_origin referrer =
      if is_local (origin referrer) then none else some (bad_origin (origin referrer))

  unfoldable pub is_trusted_context : Url → Bool
  is_trusted_context referrer = hash_eq (path referrer) register_path

  -- `Result<Option<Entity>, Forbidden>`
  unfoldable pub entity_from_referrer : Url → Forbidden Url ⊎ Option Entity
  entity_from_referrer referrer = elim (check_origin referrer) [
    | some error ↦ inl error
    | none ↦ if is_trusted_context referrer then inr none else elim (from_path (path referrer)) [
      | none ↦ inl (not_entity (path referrer))
      | some entity ↦ inr (some entity)
    ]
  ]

  abbrev pub scope_of : Url → Forbidden Url ⊎ Option Entity → Outcome Url Entity
  scope_of referrer (inl error) = reject (forbidden error)
  scope_of referrer (inr none) = reject (forbidden (trusted_context referrer))
  scope_of referrer (inr (some entity)) = extract entity

  unfoldable pub security_scope : Referer Url → Outcome Url Entity
  security_scope absent = reject (unauthorized missing_referer)
  security_scope malformed = reject invalid_header
  security_scope (given referrer) = scope_of referrer (entity_from_referrer referrer)

  unfoldable pub authenticate_authorization : Str → Option Str → Checked Url
  authenticate_authorization access_token none = reject (unauthorized no_token)
  authenticate_authorization access_token (some authorization) =
      let token = token_of authorization in
      extract (if hash_eq token access_token then none else some (bad_token token))

  unfoldable pub authenticate_trusted_context : Referer Url → Checked Url
  authenticate_trusted_context absent = reject missing_header
  authenticate_trusted_context malformed = reject invalid_header
  authenticate_trusted_context (given referer) = extract (
      if is_trusted_context referer
      then check_origin referer
      else some (not_trusted_context referer))

  -- The last `and_then`.
  abbrev pub settle : Checked Url → Outcome Url Unit
  settle (extract none) = extract tt
  settle (extract (some error)) = reject (forbidden error)
  settle (reject r) = reject r
  settle panic = panic

  unfoldable pub authenticate_only_trusted : OrFilter Url → Str → Request Url → Outcome Url Unit
  authenticate_only_trusted or_filter access_token request = settle (
      or_filter.or_ (authenticate_authorization access_token request.authorization)
        (authenticate_trusted_context request.referer))

  module _ (codec : RightsCodec) where
    open codec use {encode_entity, decode_rights}

    -- The rights that stand in the table, read and compared; `panic` is the `unwrap` of bytes that
    -- cannot be read.
    abbrev pub check_rights : List AccessRight → Option (List ℕ) → Checked Url
    check_rights required none = extract (some insufficient_privilege)
    check_rights required (some serialized) = elim (decode_rights serialized) [
      | none ↦ panic
      | some granted ↦
          extract (if any_required required granted then none else some insufficient_privilege)
    ]

    abbrev pub check_entity : Table → List AccessRight → Outcome Url Entity → Checked Url
    check_entity rights required (extract entity) =
        check_rights required (rights (encode_entity entity))
    check_entity rights required (reject r) = reject r
    check_entity rights required panic = panic

    unfoldable pub authenticate_security_scope :
        Table → List AccessRight → Referer Url → Checked Url
    authenticate_security_scope rights required referer =
        check_entity rights required (security_scope referer)

    unfoldable pub authenticate :
        OrFilter Url → Str → Table → List AccessRight → Request Url → Outcome Url Unit
    authenticate or_filter access_token rights required request = settle (
        or_filter.or_ (authenticate_authorization access_token request.authorization)
          (authenticate_security_scope rights required request.referer))

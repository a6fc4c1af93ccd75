-- ===== src/Examples/Requests.antt =====
-- Requests from a page of an entity: granting it a right, and passing the filters.
use samizdat.Prelude.{
  ℕ, zero, suc, ◌≡◌, ◌≢◌, ◌↔◌, ◌⊎◌, refl, ap, ap₂, true, false, List, [], ◌∷◌, ◌++◌, Option, none,
  some, length, append_parts, arith,
}
use samizdat.Hash.{hash_eq}
use samizdat.Text.{Str, split}
use samizdat.Store.{Table}
use samizdat.Access.{
  AccessRight, manage_objects, get_object_stats, manage_bookmarks, manage_collections,
  manage_series, manage_subscriptions, manage_identities, rank, Entity, from_path,
}
use samizdat.Auth.{RightsCodec, ok, granted_rights, patch_auth}
use samizdat.Auth.Granting.{IsLawful, IsGranted, patch_auth-IsGranted}
use samizdat.Auth.Requests.{
  Origin, tuple, domain, http, localhost, extract, reject, panic, Checked, given, Request, OrFilter,
  combined, is_local, is_trusted_context, authenticate, authenticate_only_trusted,
}
use samizdat.Auth.Requests.Passing.{HasToken, HasScope, authenticate_iff}
use samizdat.Auth.Requests.Grants.{
  IsTrusted, authenticate_only_trusted_iff, patch_auth-authenticate,
}

abbrev right_of : ℕ → Option AccessRight
right_of zero = some manage_objects
right_of (suc zero) = some get_object_stats
right_of (suc (suc zero)) = some manage_bookmarks
right_of (suc (suc (suc zero))) = some manage_collections
right_of (suc (suc (suc (suc zero)))) = some manage_series
right_of (suc (suc (suc (suc (suc zero))))) = some manage_subscriptions
right_of (suc (suc (suc (suc (suc (suc zero)))))) = some manage_identities
right_of (suc (suc (suc (suc (suc (suc (suc n))))))) = none

abbrev and_then : Option AccessRight → Option (List AccessRight) → Option (List AccessRight)
and_then (some right) (some rights) = some (right ∷ rights)
and_then _ _ = none

abbrev ranks : List AccessRight → List ℕ
ranks [] = []
ranks (right ∷ rights) = rank right ∷ ranks rights

abbrev rights_of : List ℕ → Option (List AccessRight)
rights_of [] = some []
rights_of (n ∷ ns) = and_then (right_of n) (rights_of ns)

right_of-rank : (right : AccessRight) → right_of (rank right) ≡ some right
right_of-rank manage_objects = refl
right_of-rank get_object_stats = refl
right_of-rank manage_bookmarks = refl
right_of-rank manage_collections = refl
right_of-rank manage_series = refl
right_of-rank manage_subscriptions = refl
right_of-rank manage_identities = refl

rights_of-ranks : (rights : List AccessRight) → rights_of (ranks rights) ≡ some rights
rights_of-ranks [] = refl
rights_of-ranks (right ∷ rights) = ap₂ and_then (right_of-rank right) (rights_of-ranks rights)

abbrev simple : RightsCodec
simple = record {
  encode_entity = λ e. length e.type_ ∷ e.type_ ++ e.identifier;
  encode_rights = ranks;
  decode_rights = rights_of;
}

encode-apart : (a b : Entity) → simple.encode_entity a ≡ simple.encode_entity b → a ≡ b
encode-apart a b e =
    let sized : length a.type_ ≡ length b.type_ = cc (e) in
    let whole : a.type_ ++ a.identifier ≡ b.type_ ++ b.identifier = cc (e) in
    let (p, q) = append_parts a.type_ a.identifier b.type_ b.identifier sized whole in
    λ i. record { type_ = p i; identifier = q i }

simple-IsLawful : IsLawful simple
simple-IsLawful = record { round_trip = rights_of-ranks; apart = encode-apart }

abbrev Url : Type 0
Url = Origin × Str

abbrev origin : Url → Origin
origin u = u.0

abbrev path : Url → Str
path u = u.1

abbrev either : Checked Url → Checked Url → Checked Url
either (extract a) o = extract a
either panic o = panic
either (reject r) (extract a) = extract a
either (reject r) panic = panic
either (reject r) (reject s) = reject (combined r s)

abbrev in_order : OrFilter Url
in_order = record {
  or_ = either;
  or-extract = λ a o. refl;
  or-panic = λ o. refl;
  or-second = λ r a. refl;
  or-second_panic = λ r. refl;
  or-both = λ r s. (combined r s, refl);
}

-- `/_s/x`
abbrev page : Str
page = b'/' ∷ b'_' ∷ b's' ∷ b'/' ∷ b'x' ∷ []

abbrev series : Entity
series = record { type_ = b'_' ∷ b's' ∷ []; identifier = b'x' ∷ [] }

abbrev other : Entity
other = record { type_ = b'_' ∷ b's' ∷ []; identifier = b'y' ∷ [] }

abbrev here : Url
here = (tuple http (domain localhost) 4510, page)

abbrev from_page : Request Url
from_page = record { authorization = none; referer = given here }

abbrev empty : Table
empty k = none

page-from_path : from_path page ≡ some series
unfolding from_path split
page-from_path = refl

empty-granted_rights : granted_rights simple empty series ≡ ok []
unfolding granted_rights
empty-granted_rights = refl

here-is_local : is_local (origin here) ≡ true
unfolding is_local hash_eq
here-is_local = refl

here-is_trusted_context : is_trusted_context origin path here ≡ false
unfolding is_trusted_context hash_eq
here-is_trusted_context = refl

patch_auth-IsGranted_example :
    ((patch_auth simple empty page (manage_series ∷ manage_objects ∷ manage_series ∷ [])).1 ≡ ok tt)
    × IsGranted simple
        (patch_auth simple empty page (manage_series ∷ manage_objects ∷ manage_series ∷ [])).0
        series
        []
        (manage_series ∷ manage_objects ∷ manage_series ∷ [])
patch_auth-IsGranted_example =
    patch_auth-IsGranted simple simple-IsLawful empty page series []
      (manage_series ∷ manage_objects ∷ manage_series ∷ []) page-from_path empty-granted_rights

abbrev initial : Str → ℕ
initial [] = 0
initial (c ∷ s) = c

other_ne_series : other ≢ series
other_ne_series e =
    let same : initial other.identifier ≡ initial series.identifier =
      ap (λ x. initial x.identifier) e in
    absurd (omega (arith, same))

authenticate_iff_example :
    (authenticate origin path simple in_order (b'k' ∷ []) empty (manage_series ∷ []) from_page
      ≡ extract tt)
    ↔ (HasToken (b'k' ∷ []) from_page
        ⊎ HasScope origin path simple empty (manage_series ∷ []) from_page)
authenticate_iff_example =
    authenticate_iff origin path simple in_order (b'k' ∷ []) empty (manage_series ∷ []) from_page

authenticate_only_trusted_iff_example :
    (authenticate_only_trusted origin path in_order (b'k' ∷ []) from_page ≡ extract tt)
    ↔ (HasToken (b'k' ∷ []) from_page ⊎ IsTrusted origin path from_page)
authenticate_only_trusted_iff_example =
    authenticate_only_trusted_iff origin path in_order (b'k' ∷ []) from_page

patch_auth-authenticate_example :
    authenticate origin path simple in_order
      (b'k' ∷ [])
      (patch_auth simple empty page (manage_series ∷ [])).0
      (manage_bookmarks ∷ manage_series ∷ [])
      from_page
    ≡ extract tt
patch_auth-authenticate_example =
    patch_auth-authenticate origin path simple in_order (b'k' ∷ []) empty
      (manage_bookmarks ∷ manage_series ∷ []) (manage_series ∷ []) [] manage_series page series here
      simple-IsLawful page-from_path empty-granted_rights refl refl here-is_local
      here-is_trusted_context page-from_path

-- ===== src/Redirects.antt =====
-- node/src/http/redirects.rs: where the paths of requests are redirected to.
pub mod Pieces
pub mod Rounds
use samizdat.Prelude.{
  ℕ, zero, suc, ◌==◌, ◌||◌, not, Bool, true, false, List, [], ◌∷◌, ◌++◌, Option, none, some,
  if◌then◌else◌,
}
use samizdat.Hash.{hash_eq}
use samizdat.Text.{Str, slash, split, join, filter_nonempty, contains_double_slash}

-- `"~"`, `"_collections"` and `"_series"`.
abbrev pub tilde : Str
tilde = b'~' ∷ []

abbrev pub collections_route : Str
collections_route =
    b'_' ∷ b'c' ∷ b'o' ∷ b'l' ∷ b'l' ∷ b'e' ∷ b'c' ∷ b't' ∷ b'i' ∷ b'o' ∷ b'n' ∷ b's' ∷ []

abbrev pub series_route : Str
series_route = b'_' ∷ b's' ∷ b'e' ∷ b'r' ∷ b'i' ∷ b'e' ∷ b's' ∷ []

-- `starts_with('_')`
abbrev pub is_entity : Str → Bool
is_entity [] = false
is_entity (c ∷ s) = c == b'_'

-- The formats `"/{a}/{rest}"` and `"/{a}/{b}/{rest}"`.
abbrev pub path_one : Str → Str → Str
path_one a rest = slash ∷ (a ++ slash ∷ rest)

abbrev pub path_two : Str → Str → Str → Str
path_two a b rest = slash ∷ (a ++ slash ∷ (b ++ slash ∷ rest))

-- A round of the loop over the items: `found_tilde` and `after_tilde`.
abbrev pub scan_item : Bool × List Str → Str → Bool × List Str
scan_item (found, after) item =
    if hash_eq item tilde then (true, []) else (found, after ++ item ∷ [])

unfoldable pub scan : Bool × List Str → List Str → Bool × List Str
scan state [] = state
scan state (item ∷ items) = scan (scan_item state item) items

abbrev pub tail_after : (Str → Str) → Bool × List Str → Option Str
tail_after redirect (found, after) = if found then some (redirect (join after)) else none

abbrev pub tilde_of : List Str → Option Str
tilde_of [] = none
tilde_of (entity_type ∷ []) = none
tilde_of (entity_type ∷ entity_identifier ∷ items) =
    if not (is_entity entity_type)
    then none
    else tail_after (path_two entity_type entity_identifier) (scan (false, []) items)

abbrev pub maybe_redirect_tilde : Str → Option Str
maybe_redirect_tilde path = tilde_of (split path)

abbrev pub tilde_identity_of : List Str → Option Str
tilde_identity_of [] = none
tilde_identity_of (identity ∷ items) =
    if is_entity identity then none else tail_after (path_one identity) (scan (false, []) items)

abbrev pub maybe_redirect_tilde_identity : Str → Option Str
maybe_redirect_tilde_identity path = tilde_identity_of (split path)

abbrev pub is_redirectable_entity : Str → Bool
is_redirectable_entity entity_type =
    hash_eq entity_type collections_route || hash_eq entity_type series_route

abbrev pub base_of : List Str → Option Str
base_of [] = none
base_of (entity_type ∷ []) = none
base_of (entity_type ∷ entity_identifier ∷ []) =
    if is_redirectable_entity entity_type
    then some (path_two entity_type entity_identifier [])
    else none
base_of (entity_type ∷ entity_identifier ∷ item ∷ items) = none

abbrev pub maybe_redirect_base : Str → Option Str
maybe_redirect_base path = base_of (split path)

abbrev pub base_identity_of : List Str → Option Str
base_identity_of [] = none
base_identity_of (identity ∷ []) = if is_entity identity then none else some (path_one identity [])
base_identity_of (identity ∷ item ∷ items) = none

abbrev pub maybe_redirect_base_identity : Str → Option Str
maybe_redirect_base_identity path = base_identity_of (split path)

abbrev pub maybe_redirect_empty : Str → Option Str
maybe_redirect_empty path =
    if contains_double_slash path then some (slash ∷ join (filter_nonempty (split path))) else none

abbrev pub or_else : Option Str → Option Str → Option Str
or_else none other = other
or_else (some path) other = some path

unfoldable pub maybe_redirect : Str → Option Str
maybe_redirect path = or_else (maybe_redirect_tilde path) (
    or_else (maybe_redirect_tilde_identity path) (
      or_else (maybe_redirect_base path)
        (or_else (maybe_redirect_base_identity path) (maybe_redirect_empty path))))

-- How the loop of `general_redirect` ends.
pub data Redirect : Type 0 where
  out_of_fuel rejected : Redirect
  redirect_to : Str → Redirect

-- The loop: each round is given the path before it and whether it was redirected.
abbrev pub no_more : Str → Bool → Redirect
no_more path was_redirected = if was_redirected then redirect_to path else rejected

abbrev pub redirect_next : Redirect → (Str → Redirect) → Option Str → Redirect
redirect_next ending continue none = ending
redirect_next ending continue (some new_path) = continue new_path

unfoldable pub redirect_loop : ℕ → Str → Bool → Redirect
redirect_loop zero path was_redirected = out_of_fuel
redirect_loop (suc fuel) path was_redirected =
    redirect_next (no_more path was_redirected) (λ new_path. redirect_loop fuel new_path true)
      (maybe_redirect path)

abbrev pub general_redirect : ℕ → Str → Redirect
general_redirect fuel path = redirect_loop fuel path false

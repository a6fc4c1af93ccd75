-- ===== src/Examples/Redirects.antt =====
-- Paths that are redirected.
use samizdat.Prelude.{◌≡◌, refl, [], ◌∷◌, arith}
use samizdat.Hash.{hash_eq}
use samizdat.Text.{Str, slash, split, join, filter_nonempty, contains_double_slash}
use samizdat.Redirects.{scan, maybe_redirect, redirect_to, redirect_loop, general_redirect}
use samizdat.Redirects.Rounds.{Settled, general_redirect-Settled}

-- `_c/~/x/~/y`
abbrev nested : Str
nested = b'_' ∷ b'c' ∷ slash ∷ b'~' ∷ slash ∷ b'x' ∷ slash ∷ b'~' ∷ slash ∷ b'y' ∷ []

general_redirect-Settled_example : Settled nested (general_redirect 9 nested)
unfolding split hash_eq
general_redirect-Settled_example = general_redirect-Settled 9 nested (omega arith)

nested_run : general_redirect 9 nested ≡ redirect_to (slash ∷ b'y' ∷ [])
unfolding redirect_loop maybe_redirect split scan join filter_nonempty contains_double_slash hash_eq
nested_run = refl

-- The root, which the server answers before the redirects are tried, would be redirected to itself.
root_again : general_redirect 9 [] ≡ redirect_to (slash ∷ [])
unfolding redirect_loop maybe_redirect split scan join filter_nonempty contains_double_slash hash_eq
root_again = refl

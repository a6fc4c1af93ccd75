-- ===== src/Examples/Names.antt =====
-- Paths and entities as texts.
use samizdat.Prelude.{◌≡◌, refl, [], ◌∷◌}
use samizdat.Text.{Str, split, join, filter_nonempty, ends_with_slash, contains_double_slash}
use samizdat.Collection.{normalize}
use samizdat.Access.{Entity}

-- `/a//bc/`
abbrev messy : Str
messy = b'/' ∷ b'a' ∷ b'/' ∷ b'/' ∷ b'b' ∷ b'c' ∷ b'/' ∷ []

-- `a/bc`
abbrev clean : Str
clean = b'a' ∷ b'/' ∷ b'b' ∷ b'c' ∷ []

normalize-messy : normalize messy ≡ clean
unfolding normalize join split filter_nonempty ends_with_slash contains_double_slash
normalize-messy = refl

abbrev series : Entity
series = record { type_ = b'_' ∷ b's' ∷ []; identifier = b'x' ∷ b'y' ∷ [] }

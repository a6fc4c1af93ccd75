-- ===== src/Text.antt =====
-- What the program uses of Rust's `str`: a text is the list of the bytes of its UTF-8 form. The separators
-- are ASCII, so that splitting bytes splits the text.
pub mod Split
use samizdat.Prelude.{
  ℕ, Bool, true, false, not, ◌&&◌, ◌||◌, List, [], ◌∷◌, ◌++◌, ◌==◌, if◌then◌else◌,
}

abbrev pub Str : Type 0
Str = List ℕ

abbrev pub slash : ℕ
slash = b'/'

abbrev pub push_front : ℕ → List Str → List Str
push_front c [] = (c ∷ []) ∷ []
push_front c (piece ∷ pieces) = (c ∷ piece) ∷ pieces

-- `split('/')`
unfoldable pub split : Str → List Str
split [] = [] ∷ []
split (c ∷ s) = let rest = split s in if c == slash then [] ∷ rest else push_front c rest

-- `join("/")`
unfoldable pub join : List Str → Str
join [] = []
join (piece ∷ []) = piece
join (piece ∷ next ∷ pieces) = piece ++ slash ∷ join (next ∷ pieces)

-- `is_empty`
abbrev pub is_empty : Str → Bool
is_empty [] = true
is_empty (c ∷ s) = false

-- `filter(|slice| !slice.is_empty())`
unfoldable pub filter_nonempty : List Str → List Str
filter_nonempty [] = []
filter_nonempty ([] ∷ pieces) = filter_nonempty pieces
filter_nonempty ((c ∷ s) ∷ pieces) = (c ∷ s) ∷ filter_nonempty pieces

-- `starts_with('/')`
abbrev pub starts_with_slash : Str → Bool
starts_with_slash [] = false
starts_with_slash (c ∷ s) = c == slash

-- `ends_with('/')`
unfoldable pub ends_with_slash : Str → Bool
ends_with_slash [] = false
ends_with_slash (c ∷ []) = c == slash
ends_with_slash (c ∷ d ∷ s) = ends_with_slash (d ∷ s)

-- `contains("//")`
unfoldable pub contains_double_slash : Str → Bool
contains_double_slash [] = false
contains_double_slash (c ∷ []) = false
contains_double_slash (c ∷ d ∷ s) = c == slash && d == slash || contains_double_slash (d ∷ s)

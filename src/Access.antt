-- ===== src/Access.antt =====
-- node/src/access.rs: access rights and the entities that hold them.
pub mod Entities
use samizdat.Prelude.{
  ℕ, Bool, true, false, List, [], ◌∷◌, ◌++◌, Option, none, some, ◌>>=◌, if◌then◌else◌, ◌==◌,
}
use samizdat.Text.{Str, slash, split, is_empty}

pub data AccessRight : Type 0 where
  manage_objects get_object_stats manage_bookmarks manage_collections manage_series
        manage_subscriptions manage_identities :
      AccessRight

-- The place of a right among the seven: the derived order and equality compare these.
abbrev pub rank : AccessRight → ℕ
rank manage_objects = 0
rank get_object_stats = 1
rank manage_bookmarks = 2
rank manage_collections = 3
rank manage_series = 4
rank manage_subscriptions = 5
rank manage_identities = 6

abbrev pub right_eq : AccessRight → AccessRight → Bool
right_eq a b = rank a == rank b

pub record Entity : Type 0 where
  pub type_ : Str
  pub identifier : Str

-- `Display for Entity`
abbrev pub fmt : Entity → Str
fmt e = slash ∷ e.type_ ++ slash ∷ e.identifier

-- `split.next()`: the next piece and the pieces after it.
abbrev pub next_piece : List Str → Option (Str × List Str)
next_piece [] = none
next_piece (piece ∷ pieces) = some (piece, pieces)

unfoldable pub from_path : Str → Option Entity
from_path path = do
  (first, pieces) ← next_piece (split path)
  (type_, pieces') ← (if is_empty first then next_piece pieces else some (first, pieces))
  (identifier, pieces'') ← next_piece pieces'
  some (record { type_ = type_; identifier = identifier })

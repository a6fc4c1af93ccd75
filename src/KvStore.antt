-- ===== src/KvStore.antt =====
-- node/src/http/kvstore.rs: the values that entities keep in the node, without the filters around them.
pub mod Scopes
use samizdat.Prelude.{ℕ, ◌&&◌, Bool, List, [], ◌∷◌, Option, none, some, ◌>>=◌, if◌then◌else◌}
use samizdat.Hash.{hash_eq}
use samizdat.Codec.{Codec}
use samizdat.Text.{Str}
use samizdat.Store.{Table, put}
use samizdat.Access.{Entity}

-- The derived `==`.
abbrev pub entity_eq : Entity → Entity → Bool
entity_eq a b = hash_eq a.type_ b.type_ && hash_eq a.identifier b.identifier

module _ (codec : Codec (Entity × Str)) where
  -- `key`
  abbrev pub value_key : Entity → Str → List ℕ
  value_key entity tail = codec.serialize (entity, tail)

  -- `get`, before the text is made valid.
  unfoldable pub get_value : Table → Entity → Str → Option (List ℕ)
  get_value t entity tail = t (value_key entity tail)

  -- `put` and `delete`
  unfoldable pub put_value : Table → Entity → Str → List ℕ → Table
  put_value t entity tail value = put t (value_key entity tail) (some value)

  unfoldable pub delete_value : Table → Entity → Str → Table
  delete_value t entity tail = put t (value_key entity tail) none

  -- The loop of `clear` over the keys of the table: `none` is the error of `deserialize`.
  abbrev pub add_key : Entity → List ℕ → Entity × Str → List (List ℕ) → List (List ℕ)
  add_key entity key (key_entity, tail) batch =
      if entity_eq entity key_entity then key ∷ batch else batch

  unfoldable pub clear_batch : Entity → List (List ℕ) → Option (List (List ℕ))
  clear_batch entity [] = some []
  clear_batch entity (key ∷ keys) = do
    owner ← codec.deserialize key
    batch ← clear_batch entity keys
    some (add_key entity key owner batch)

  abbrev pub delete_keys : Table → List (List ℕ) → Table
  delete_keys t [] = t
  delete_keys t (key ∷ batch) = delete_keys (put t key none) batch

  -- `clear`, with the keys that the table has.
  unfoldable pub clear_values : Table → Entity → List (List ℕ) → Option Table
  clear_values t entity keys = do batch ← clear_batch entity keys; some (delete_keys t batch)

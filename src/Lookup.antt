-- ===== src/Lookup.antt =====
-- node/src/models/series.rs, identity.rs, subscription.rs and collection.rs: how a record is looked for by
-- a riddle, over the entries of a table in their order.
pub mod Found
use samizdat.Prelude.{
  ℕ, ◌==◌, Bool, false, List, [], ◌∷◌, Option, none, some, length, if◌then◌else◌, ◌>>=◌,
}
use samizdat.Hash.{Hash}
use samizdat.Codec.{Codec}
use samizdat.Riddle.{Riddle, resolves}
use samizdat.Series.{SeriesRef}
use samizdat.Collection.Items.{CollectionItem}

-- `Hash::try_from`
abbrev pub try_hash : List ℕ → Option Hash
try_hash bytes = if length bytes == 28 then some bytes else none

-- `Key::from_bytes` and `Key::hash`: which bytes are a key is for the crate `ed25519_dalek` to say.
abbrev pub key_hash : (List ℕ → Hash) → (List ℕ → Bool) → List ℕ → Option Hash
key_hash digest is_key bytes = if is_key bytes then some (digest bytes) else none

module _ (digest : List ℕ → Hash) where
  -- Whether an entry's key resolves the riddle; a key that cannot be read is passed over.
  abbrev pub is_match : Riddle → Option Hash → Bool
  is_match riddle none = false
  is_match riddle (some hash) = resolves digest riddle hash

  -- The value under the first such key.
  unfoldable pub find_value :
      (List ℕ → Option Hash) → Riddle → List (List ℕ × List ℕ) → Option (List ℕ)
  find_value hash_of riddle [] = none
  find_value hash_of riddle ((key, value) ∷ entries) =
      let rest = find_value hash_of riddle entries in
      if is_match riddle (hash_of key) then some value else rest

  -- `SeriesRef::find`, `SubscriptionRef::find` and `Identity::find`: a value that is not read ends the
  -- search with `None`.
  abbrev pub find_series :
      (List ℕ → Bool) → Codec SeriesRef → Riddle → List (List ℕ × List ℕ) → Option SeriesRef
  find_series is_key codec riddle entries =
      find_value (key_hash digest is_key) riddle entries >>= codec.deserialize

  -- `CollectionItem::find`: the outer `none` is the error of `deserialize`.
  abbrev pub read_found : Codec CollectionItem → Option (List ℕ) → Option (Option CollectionItem)
  read_found codec none = some none
  read_found codec (some value) = do item ← codec.deserialize value; some (some item)

  abbrev pub find_item :
      Codec CollectionItem → Riddle → List (List ℕ × List ℕ) → Option (Option CollectionItem)
  find_item codec riddle entries = read_found codec (find_value try_hash riddle entries)

-- ===== src/Collection/Items.antt =====
-- node/src/models/collection.rs: the items of a collection, which prove that they belong to it, and
-- `CollectionRef::build`. The object of the inventory is built elsewhere: its hash is an argument. The
-- items are returned in the order in which they are written to the store.
pub mod Building
pub mod Binding
use samizdat.Prelude.{
  ℕ, Bool, true, false, not, List, [], ◌∷◌, ◌++◌, Option, none, some, ◌>>=◌, if◌then◌else◌,
}
use samizdat.Hash.{Hash, hash_eq, rehash}
use samizdat.Text.{Str}
use samizdat.Patricia.Proof.{PatriciaProof, is_in}
use samizdat.Patricia.Map.{PatriciaMap, root_hash, insert, from_iter, proof_for}

pub record CollectionItem : Type 0 where
  pub collection : Hash
  pub name : Str
  pub inclusion_proof : PatriciaProof
  pub is_draft : Bool

-- `_inventory`
abbrev pub inventory_path : Str
inventory_path = b'_' ∷ b'i' ∷ b'n' ∷ b'v' ∷ b'e' ∷ b'n' ∷ b't' ∷ b'o' ∷ b'r' ∷ b'y' ∷ []

-- The paths of the items that are built.
abbrev pub paths : List (Str × Hash) → List Str
paths [] = inventory_path ∷ []
paths ((name, object_hash) ∷ objects) = name ∷ paths objects

module _ (digest : List ℕ → Hash) where
  -- `ItemPathBuf::hash`
  abbrev pub name_hash : Str → Hash
  name_hash name = digest name

  -- The outer `none` is a panic.
  unfoldable pub is_valid : CollectionItem → Option Bool
  is_valid item = do
    is_included ← is_in digest item.inclusion_proof item.collection
    some (
        if not is_included
        then false
        else if not (hash_eq (name_hash item.name) item.inclusion_proof.claimed_key)
        then false
        else true)

  -- The inner `none` is `Error::InvalidCollectionItem`.
  unfoldable pub object : CollectionItem → Option (Option Hash)
  object item = do
    valid ← is_valid item
    some (if valid then some item.inclusion_proof.claimed_value else none)

  -- `Locator::hash`
  unfoldable pub locator_hash : Hash → Str → Hash
  locator_hash collection name = rehash digest collection (name_hash name)

  abbrev pub entries : List (Str × Hash) → List (Hash × Hash)
  entries [] = []
  entries ((name, object_hash) ∷ objects) = (name_hash name, object_hash) ∷ entries objects

  -- `none` is the panic "name exists in map".
  abbrev pub item_of : PatriciaMap → Bool → Str → Option PatriciaProof → Option CollectionItem
  item_of patricia_map is_draft name none = none
  item_of patricia_map is_draft name (some proof) = some (record {
    collection = root_hash patricia_map;
    name = name;
    inclusion_proof = proof;
    is_draft = is_draft;
  })

  unfoldable pub build_item : PatriciaMap → Bool → Str → Option CollectionItem
  build_item patricia_map is_draft name =
      proof_for digest patricia_map (name_hash name) >>= item_of patricia_map is_draft name

  unfoldable pub build_items : PatriciaMap → Bool → List Str → Option (List CollectionItem)
  build_items patricia_map is_draft [] = some []
  build_items patricia_map is_draft (name ∷ names) = do
    item ← build_item patricia_map is_draft name
    items ← build_items patricia_map is_draft names
    some (item ∷ items)

  -- The collection's hash and the items.
  unfoldable pub build : Bool → List (Str × Hash) → Hash → Option (Hash × List CollectionItem)
  build is_draft objects inventory_object = do
    collected ← from_iter digest (entries objects)
    (patricia_map, old) ← insert digest collected (name_hash inventory_path) inventory_object
    items ← build_items patricia_map is_draft (paths objects)
    some (root_hash patricia_map, items)

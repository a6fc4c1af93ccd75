-- ===== src/Collection/Tables.antt =====
-- node/src/models/collection.rs: the tables of items and of their locators. A batch is written at once.
pub mod Reading
use samizdat.Codec.{Codec}
use samizdat.Prelude.{ℕ, Bool, List, ◌++◌, Option, none, some, ◌>>=◌}
use samizdat.Hash.{Hash}
use samizdat.Text.{Str}
use samizdat.Store.{Table, put}
use samizdat.Collection.Items.{CollectionItem, locator_hash, object}

pub record Tables : Type 0 where
  pub collection_items : Table
  pub collection_item_locators : Table

-- `Locator::path`
abbrev pub locator_path : Hash → Str → List ℕ
locator_path collection name = collection ++ name

module _ (digest : List ℕ → Hash) (codec : Codec CollectionItem) where
  unfoldable pub insert_item : Tables → CollectionItem → Tables
  insert_item t item =
      let key = locator_hash digest item.collection item.name in
      record {
        collection_items = put t.collection_items key (some (codec.serialize item));
        collection_item_locators =
            put t.collection_item_locators (locator_path item.collection item.name) (some key);
      }

  -- `drop_if_exists_with`
  unfoldable pub drop_item : Tables → CollectionItem → Tables
  drop_item t item = record {
    collection_items = put t.collection_items (locator_hash digest item.collection item.name) none;
    collection_item_locators =
        put t.collection_item_locators (locator_path item.collection item.name) none;
  }

  -- The outer `none` is the error of `bincode::deserialize`.
  abbrev pub read_item : Option (List ℕ) → Option (Option CollectionItem)
  read_item none = some none
  read_item (some bytes) = codec.deserialize bytes >>= (λ item. some (some item))

  -- `CollectionRef::get` and `Locator::get`
  unfoldable pub get : Tables → Hash → Str → Option (Option CollectionItem)
  get t collection name = read_item (t.collection_items (locator_hash digest collection name))

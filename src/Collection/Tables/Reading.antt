-- ===== src/Collection/Tables/Reading.antt =====
-- What is read from the tables after an item was inserted or dropped.
use samizdat.Codec.{Codec}
use samizdat.Prelude.{
  ℕ, ◌≡◌, ◌≢◌, refl, ap, ◌∙◌, List, Option, none, some, ◌>>=◌, Bool-cases, inl, inr,
}
use samizdat.Hash.{Hash, hash_eq, hash_eq_iff}
use samizdat.Text.{Str}
use samizdat.Store.{Table, put}
use samizdat.Collection.Items.{CollectionItem, locator_hash}
use samizdat.Collection.Tables.{Tables, insert_item, drop_item, read_item, get}

put_at : (t : Table) (k : List ℕ) (v : Option (List ℕ)) → put t k v k ≡ v
put_at t k v = rw ((hash_eq_iff k k).1 refl) refl

put_apart : (t : Table) (k j : List ℕ) (v : Option (List ℕ)) → j ≢ k → put t k v j ≡ t j
put_apart t k j v ne = elim (Bool-cases (hash_eq j k)) [
  | inl e ↦ absurd (ne ((hash_eq_iff j k).0 e))
  | inr e ↦ rw e refl
]

-- If an item is read back from its bytes, then after it was inserted it is read under its collection and name, and after it was dropped nothing
-- is. What is read under a name with another locator hash stays in both cases.
pub get-insert_item :
    (digest : List ℕ → Hash) (codec : Codec CollectionItem) (t : Tables) (item : CollectionItem)
    (collection : Hash) (name : Str)
    → codec.deserialize (codec.serialize item) ≡ some item
    → locator_hash digest collection name ≢ locator_hash digest item.collection item.name
    → (get digest codec (insert_item digest codec t item) item.collection item.name
        ≡ some (some item))
      × (get digest codec (drop_item digest codec t item) item.collection item.name ≡ some none)
      × (get digest codec (insert_item digest codec t item) collection name
          ≡ get digest codec t collection name)
      × (get digest codec (drop_item digest codec t item) collection name
          ≡ get digest codec t collection name)
unfolding get insert_item drop_item
get-insert_item digest codec t item collection name back ne =
    let key = locator_hash digest item.collection item.name in
    let read = read_item digest codec in
    (
      ap read (put_at t.collection_items key (some (codec.serialize item)))
          ∙ ap (λ o. o >>= (λ x. some (some x))) back,
      ap read (put_at t.collection_items key none),
      ap read (put_apart t.collection_items key (locator_hash digest collection name) _ ne),
      ap read (put_apart t.collection_items key (locator_hash digest collection name) _ ne),
    )

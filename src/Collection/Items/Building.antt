-- ===== src/Collection/Items/Building.antt =====
-- Every item of a built collection is valid and gives the object that was put under its path.
use samizdat.Prelude.{
  ℕ, ◌≡◌, refl, ap, sym, ◌∙◌, Bool, true, false, List, [], ◌∷◌, Option, none, some, if◌then◌else◌,
  Bool-cases, inl, inr,
}
use samizdat.Hash.{Hash, IsHash, hash_eq, hash_eq_iff}
use samizdat.Text.{Str}
use samizdat.Patricia.Proof.{PatriciaProof}
use samizdat.Patricia.Map.{PatriciaMap, root_hash, proof_for}
use samizdat.Patricia.Map.Laws.{
  IsValid, lookup, replay, AllKeys, Says, insert-Inserted, proof_for-Says, from_iter-replay,
}
use samizdat.Collection.Items.{
  CollectionItem, inventory_path, paths, is_valid, object, entries, build_item, build_items, build,
}

module _ (digest : List ℕ → Hash) (digest-IsHash : (x : List ℕ) → IsHash (digest x)) where
  -- The object under a path: the last one in the list for the path's hash, or the inventory's.
  abbrev pub object_at : List (Str × Hash) → Hash → Str → Option Hash
  object_at objects inventory_object name =
      if hash_eq (digest name) (digest inventory_path)
      then some inventory_object
      else replay digest (entries digest objects) (λ _. none) (digest name)

  -- The items have the given paths, in order, belong to the collection, and each of them is valid and
  -- gives the object of the table under its path.
  abbrev pub Serve : Hash → (Str → Option Hash) → List Str → List CollectionItem → Type 0
  Serve root table [] [] = Unit
  Serve root table [] (item ∷ items) = true ≡ false
  Serve root table (name ∷ names) [] = true ≡ false
  Serve root table (name ∷ names) (item ∷ items) =
      ((item.name ≡ name)
        × (item.collection ≡ root)
        × (object digest item ≡ some (table name))
        × ((value : Hash) × (table name ≡ some value)))
      × Serve root table names items

  entries-AllKeys : (objects : List (Str × Hash)) → AllKeys digest (entries digest objects)
  entries-AllKeys [] = tt
  entries-AllKeys ((name, o) ∷ objects) = (digest-IsHash name, entries-AllKeys objects)

  build_item-valid :
      (m : PatriciaMap) (is_draft : Bool) (name : Str) (value : Hash)
      → IsValid digest m
      → lookup m (digest name) ≡ some value
      → (item : CollectionItem) × (build_item digest m is_draft name ≡ some item)
        × (item.name ≡ name)
        × (item.collection ≡ root_hash m)
        × (object digest item ≡ some (some value))
  unfolding build_item object is_valid
  build_item-valid m is_draft name value v h =
      let (found, runs, says) = proof_for-Says digest m (digest name) v (digest-IsHash name) in
      answer found runs says
    where
      answer :
          (found : Option PatriciaProof)
          → proof_for digest m (digest name) ≡ some found
          → Says digest m (digest name) found
          → (item : CollectionItem) × (build_item digest m is_draft name ≡ some item)
            × (item.name ≡ name)
            × (item.collection ≡ root_hash m)
            × (object digest item ≡ some (some value))
      answer none runs says = absurd (cc (says, h))
      answer (some proof) runs (found, same, accepted) =
          let ev : proof.claimed_value ≡ value = cc (found, h) in
          let ek = (hash_eq_iff (digest name) proof.claimed_key).1 (sym same) in
          let item : CollectionItem = record {
            collection = root_hash m;
            name = name;
            inclusion_proof = proof;
            is_draft = is_draft;
          } in
          (item, rw runs refl, refl, refl, rw accepted (rw ek (ap (λ x. some (some x)) ev)))

  abbrev AllFound : (Str → Option Hash) → List Str → Type 0
  AllFound table [] = Unit
  AllFound table (name ∷ names) =
      ((value : Hash) × (table name ≡ some value)) × AllFound table names

  build_items-Serve :
      (m : PatriciaMap) (is_draft : Bool) (table : Str → Option Hash) (names : List Str)
      → IsValid digest m
      → ((name : Str) → lookup m (digest name) ≡ table name)
      → AllFound table names
      → (items : List CollectionItem) × (build_items digest m is_draft names ≡ some items)
        × Serve (root_hash m) table names items
  unfolding build_items
  build_items-Serve m is_draft table [] v same all = ([], refl, tt)
  build_items-Serve m is_draft table (name ∷ names) v same all =
      let (value, held) = all.0 in
      let (item, runs, named, rooted, gives) =
        build_item-valid m is_draft name value v (same name ∙ held) in
      let (items, more, served) = build_items-Serve m is_draft table names v same all.1 in
      (
        item ∷ items,
        rw runs (rw more refl),
        ((named, rooted, gives ∙ ap some (sym held), (value, held)), served),
      )

  replay-some :
      (it : List (Hash × Hash)) (f : Hash → Option Hash) (k value : Hash)
      → f k ≡ some value
      → (last : Hash) × (replay digest it f k ≡ some last)
  unfolding replay
  replay-some [] f k value h = (value, h)
  replay-some ((key, new) ∷ it) f k value h = elim (Bool-cases (hash_eq k key)) [
    | inl e ↦ replay-some it _ k new (rw e refl)
    | inr e ↦ replay-some it _ k value (rw e h)
  ]

  -- Every path of the list is found, if what the list holds and the inventory's path are.
  paths-AllFound :
      (objects : List (Str × Hash)) (f : Hash → Option Hash) (table : Str → Option Hash)
      → ((name : Str) (value : Hash)
          → replay digest (entries digest objects) f (digest name) ≡ some value
          → (last : Hash) × (table name ≡ some last))
      → ((value : Hash) × (table inventory_path ≡ some value))
      → AllFound table (paths objects)
  unfolding replay
  paths-AllFound [] f table each inventory = (inventory, tt)
  paths-AllFound ((name, o) ∷ objects) f table each inventory =
      let (value, held) =
        replay-some (entries digest objects) (λ k. if hash_eq k (digest name) then some o else f k)
          (digest name) o (rw ((hash_eq_iff (digest name) (digest name)).1 refl) refl) in
      (each name value held, paths-AllFound objects _ table each inventory)

  object_at-some :
      (objects : List (Str × Hash)) (inventory_object : Hash) (name : Str) (value : Hash)
      → replay digest (entries digest objects) (λ _. none) (digest name) ≡ some value
      → (last : Hash) × (object_at objects inventory_object name ≡ some last)
  object_at-some objects inventory_object name value h =
      elim (Bool-cases (hash_eq (digest name) (digest inventory_path))) [
        | inl e ↦ (inventory_object, rw e refl)
        | inr e ↦ (value, rw e h)
      ]

  -- `build` does not panic, for any paths and objects. It returns a collection and an item for each
  -- path in the list, in order, and one for the inventory. Each item belongs to the collection, its
  -- inclusion proof is accepted, and it gives the last object in the list that stands under a path with
  -- the same hash, or the inventory's object under the inventory's path. All digests are hashes.
  pub build-Serve :
      (is_draft : Bool) (objects : List (Str × Hash)) (inventory_object : Hash)
      → (root : Hash) × (items : List CollectionItem) × (build digest is_draft objects
            inventory_object
          ≡ some (root, items))
        × Serve root (object_at objects inventory_object) (paths objects) items
  unfolding build
  build-Serve is_draft objects inventory_object =
      let table = object_at objects inventory_object in
      let (m, collected, v, reads) =
        from_iter-replay digest (entries digest objects) (entries-AllKeys objects) in
      let ins =
        insert-Inserted digest m (digest inventory_path) inventory_object v
          (digest-IsHash inventory_path) in
      let same : (name : Str) → lookup ins.result (digest name) ≡ table name = λ name.
        ins.reads (digest name) (digest-IsHash name)
        ∙ ap
            (λ o.
              if hash_eq (digest name) (digest inventory_path) then some inventory_object else o)
            (reads (digest name) (digest-IsHash name)) in
      let own : (value : Hash) × (table inventory_path ≡ some value) = (
        inventory_object,
        rw ((hash_eq_iff (digest inventory_path) (digest inventory_path)).1 refl) refl,
      ) in
      let all =
        paths-AllFound objects (λ _. none) table (object_at-some objects inventory_object) own in
      let (items, runs, served) =
        build_items-Serve ins.result is_draft table (paths objects) ins.valid same all in
      (root_hash ins.result, items, rw collected (rw ins.runs (rw runs refl)), served)

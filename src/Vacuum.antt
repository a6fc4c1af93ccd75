-- ===== src/Vacuum.antt =====
-- node/src/vacuum.rs: `vacuum`, which drops the least useful objects until the statistics add up to less
-- than the limit. What the tables list, in the order of their keys, is an argument; so is the usefulness
-- of an object, a floating point number in the code, of which only the order matters.
pub mod Loop
pub mod Kept
use samizdat.Prelude.{
  ℕ, ◌+◌, ◌-◌, ◌*◌, leb, ltb, Bool, true, false, List, [], ◌∷◌, ◌++◌, Option, none, some, ◌>>=◌,
  if◌then◌else◌,
}
use samizdat.Hash.{Hash, hash_eq}
use samizdat.Codec.{Codec}
use samizdat.Bookmark.{is_bookmarked}
use samizdat.Collection.Items.{CollectionItem, locator_hash}
use samizdat.Collection.Tables.{locator_path}
use samizdat.Database.{
  Db, Entry, delete_entry, write_batch, bookmarks, collection_items, collection_item_locators,
}
use samizdat.Objects.Building.{ObjectStatistics, ObjectCodecs}
use samizdat.Objects.Reading.{drop_entries}

pub data VacuumStatus : Type 0 where
  unnecessary insufficient done : VacuumStatus

-- What is on the heap: a key, its size, and how useful the object is.
pub record HeapEntry : Type 0 where
  pub key : Hash
  pub size : ℕ
  pub usefulness : ℕ

-- The heap as the list of its entries in the order in which `pop` gives them: the least useful one is
-- first. Entries of one usefulness come in an order that the code leaves open.
unfoldable pub push : HeapEntry → List HeapEntry → List HeapEntry
push e [] = e ∷ []
push e (h ∷ heap) =
    let rest = push e heap in if ltb e.usefulness h.usefulness then e ∷ h ∷ heap else h ∷ rest

-- Whether a set of hashes contains one.
abbrev pub contains_hash : List Hash → Hash → Bool
contains_hash [] hash = false
contains_hash (h ∷ hs) hash = if hash_eq hash h then true else contains_hash hs hash

-- The variables of the loop.
pub record Pruned : Type 0 where
  pub status : VacuumStatus
  pub total_size : ℕ
  pub batch : List Entry
  pub dropped : List Hash

module _ (digest : List ℕ → Hash) (codecs : ObjectCodecs) (items : Codec CollectionItem)
    (usefulness : ObjectStatistics → ℕ) where
  -- The first pass over the statistics; `none` is the error of `bincode::deserialize`.
  unfoldable pub sum_sizes : List (Hash × List ℕ) → Option ℕ
  sum_sizes [] = some 0
  sum_sizes ((key, value) ∷ entries) = do
    s ← codecs.statistics.deserialize value
    total ← sum_sizes entries
    some (s.size + total)

  -- The second pass, which fills the heap.
  unfoldable pub fill_heap : List HeapEntry → List (Hash × List ℕ) → Option (List HeapEntry)
  fill_heap heap [] = some heap
  fill_heap heap ((key, value) ∷ entries) = do
    s ← codecs.statistics.deserialize value
    fill_heap (push (record { key = key; size = s.size; usefulness = usefulness s }) heap) entries

  abbrev pub drop_object : Db → HeapEntry → Pruned → Bool → Option Pruned
  drop_object db e p true = some p
  drop_object db e p false = do
    entries ← drop_entries digest codecs db e.key
    some (record {
      status = p.status;
      total_size = p.total_size - e.size;
      batch = p.batch ++ entries;
      dropped = p.dropped ++ e.key ∷ [];
    })

  -- One round of the loop, for an entry that was popped.
  abbrev pub prune_one : Db → HeapEntry → Pruned → Option Pruned
  prune_one db e p = do
    bookmarked ← is_bookmarked codecs.bookmarks (db bookmarks) e.key
    drop_object db e p bookmarked

  -- The loop, from `status = Done`.
  unfoldable pub prune : Db → ℕ → List HeapEntry → Pruned → Option Pruned
  prune db max_storage [] p =
      some (if leb max_storage p.total_size then record p { status = insufficient } else p)
  prune db max_storage (e ∷ heap) p =
      let more = prune_one db e p >>= prune db max_storage heap in
      if leb max_storage p.total_size then more else some p

  -- The entries of `CollectionItem::drop_if_exists_with`.
  abbrev pub drop_item_entries : CollectionItem → List Entry
  drop_item_entries item =
      delete_entry collection_item_locators (locator_path item.collection item.name)
      ∷ delete_entry collection_items (locator_hash digest item.collection item.name)
      ∷ []

  -- The pass over the items.
  unfoldable pub prune_items : List Hash → List (Hash × List ℕ) → Option (List Entry)
  prune_items dropped [] = some []
  prune_items dropped ((key, value) ∷ entries) = do
    item ← items.deserialize value
    rest ← prune_items dropped entries
    some (
        if contains_hash dropped item.inclusion_proof.claimed_value
        then drop_item_entries item ++ rest
        else rest)

  abbrev pub start_pruning : ℕ → Pruned
  start_pruning total_size = record {
    status = done;
    total_size = total_size;
    batch = [];
    dropped = [];
  }

  abbrev pub vacuum_from :
      Db
      → ℕ
      → List (Hash × List ℕ)
      → List (Hash × List ℕ)
      → ℕ
      → Option (VacuumStatus × Db × List Hash)
  vacuum_from db max_storage statistics_entries item_entries total_size =
      let pruned : Option (VacuumStatus × Db × List Hash) = (do
        heap ← fill_heap [] statistics_entries
        p ← prune db max_storage heap (start_pruning total_size)
        entries ← prune_items p.dropped item_entries
        some (p.status, write_batch codecs.bookmarks db (p.batch ++ entries), p.dropped)) in
      if ltb total_size max_storage then some (unnecessary, db, []) else pruned

  -- `vacuum`: the status, the tables, and what was dropped; on an error nothing was written.
  -- `max_storage` is the limit in bytes, `cli().max_storage * 1_000_000`.
  unfoldable pub vacuum :
      Db → ℕ → List (Hash × List ℕ) → List (Hash × List ℕ) → Option (VacuumStatus × Db × List Hash)
  vacuum db max_storage statistics_entries item_entries = do
    total_size ← sum_sizes statistics_entries
    vacuum_from db max_storage statistics_entries item_entries total_size

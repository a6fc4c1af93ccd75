-- ===== src/Vacuum/Kept.antt =====
-- node/src/vacuum.rs: what a round of the vacuum drops and what it keeps.
use samizdat.Prelude.{
  ℕ, ltb, ◌≡◌, refl, ap, sym, true, false, List, [], some, >>=-eq-some, eq_of_some, Bool-cases, inl,
  inr, ◌⊎◌,
}
use samizdat.Hash.{Hash}
use samizdat.Codec.{Codec}
use samizdat.Bookmark.{is_bookmarked}
use samizdat.Collection.Items.{CollectionItem}
use samizdat.Database.{Db, bookmarks}
use samizdat.Objects.Building.{ObjectStatistics, ObjectCodecs}
use samizdat.Vacuum.{
  VacuumStatus, unnecessary, insufficient, HeapEntry, contains_hash, Pruned, sum_sizes, fill_heap,
  prune, prune_items, start_pruning, vacuum_from, vacuum,
}
use samizdat.Vacuum.Loop.{listed_keys, AllUnmarked-contains, prune-Loop, keys_of-fill_heap}

module _ (digest : List ℕ → Hash) (codecs : ObjectCodecs) (items : Codec CollectionItem)
    (usefulness : ObjectStatistics → ℕ) (db : Db) where
  -- A round that is necessary prunes from the filled heap, and its status and what was dropped are
  -- those of the loop.
  record Prunes (max_storage : ℕ) (entries : List (Hash × List ℕ)) (status : VacuumStatus)
      (dropped : List Hash) : Type 0 where
    total : ℕ
    heap : List HeapEntry
    q : Pruned
    filled : fill_heap digest codecs items usefulness [] entries ≡ some heap
    loops :
        prune digest codecs items usefulness db max_storage heap
          (start_pruning digest codecs items usefulness total)
        ≡ some q
    same_status : q.status ≡ status
    same_dropped : q.dropped ≡ dropped

  vacuum_from_inv :
      (max_storage : ℕ) (entries item_entries : List (Hash × List ℕ)) (total : ℕ)
      (status : VacuumStatus) (after : Db) (dropped : List Hash)
      → vacuum_from digest codecs items usefulness db max_storage entries item_entries total
        ≡ some (status, after, dropped)
      → ((status ≡ unnecessary) × (dropped ≡ [])) ⊎ Prunes max_storage entries status dropped
  vacuum_from_inv max_storage entries item_entries total status after dropped h =
      elim (Bool-cases (ltb total max_storage)) [
        | inl small ↦
            let same = eq_of_some _ _ (rw small at h) in
            inl (sym (ap (λ r. r.0) same), sym (ap (λ r. r.2) same))
        | inr large ↦
            let (heap, filled, h2) =
              >>=-eq-some (fill_heap digest codecs items usefulness [] entries) _ (rw large at h) in
            let (q, loops, h3) =
              >>=-eq-some
                (prune digest codecs items usefulness db max_storage heap
                  (start_pruning digest codecs items usefulness total))
                _ h2 in
            let (batch, pruned, h4) =
              >>=-eq-some (prune_items digest codecs items usefulness q.dropped item_entries) _
                h3 in
            let same = eq_of_some _ _ h4 in
            inr (record {
              total = total;
              heap = heap;
              q = q;
              filled = filled;
              loops = loops;
              same_status = ap (λ r. r.0) same;
              same_dropped = ap (λ r. r.2) same;
            })
      ]

  -- If a round of the vacuum ends without an error, then no object that it dropped has a bookmark.
  pub is_bookmarked-vacuum :
      (max_storage : ℕ) (entries item_entries : List (Hash × List ℕ)) (status : VacuumStatus)
      (after : Db) (dropped : List Hash) (k : Hash)
      → vacuum digest codecs items usefulness db max_storage entries item_entries
        ≡ some (status, after, dropped)
      → contains_hash dropped k ≡ true
      → is_bookmarked codecs.bookmarks (db bookmarks) k ≡ some false
  unfolding vacuum
  is_bookmarked-vacuum max_storage entries item_entries status after dropped k h there =
      let (total, summed, h2) =
        >>=-eq-some (sum_sizes digest codecs items usefulness entries) _ h in
      elim (vacuum_from_inv max_storage entries item_entries total status after dropped h2) [
        | inl (s, nothing) ↦ absurd (cc (rw nothing at there))
        | inr p ↦
            let l =
              prune-Loop digest codecs items usefulness db max_storage p.heap
                (start_pruning digest codecs items usefulness p.total) p.q p.loops in
            AllUnmarked-contains digest codecs items usefulness db p.q.dropped k (l.unmarked tt)
              (rw p.same_dropped there)
      ]

  -- If a round of the vacuum says that it was insufficient, then it has dropped every object of the
  -- statistics that has no bookmark: each of them is dropped or bookmarked.
  pub vacuum_insufficient :
      (max_storage : ℕ) (entries item_entries : List (Hash × List ℕ)) (after : Db)
      (dropped : List Hash) (k : Hash)
      → vacuum digest codecs items usefulness db max_storage entries item_entries
        ≡ some (insufficient, after, dropped)
      → contains_hash (listed_keys entries) k ≡ true
      → (is_bookmarked codecs.bookmarks (db bookmarks) k ≡ some true)
        ⊎ (contains_hash dropped k ≡ true)
  unfolding vacuum
  vacuum_insufficient max_storage entries item_entries after dropped k h there =
      let (total, summed, h2) =
        >>=-eq-some (sum_sizes digest codecs items usefulness entries) _ h in
      elim (vacuum_from_inv max_storage entries item_entries total insufficient after dropped h2) [
        | inl (s, nothing) ↦ absurd (cc (s))
        | inr p ↦
            let l =
              prune-Loop digest codecs items usefulness db max_storage p.heap
                (start_pruning digest codecs items usefulness p.total) p.q p.loops in
            let heaped =
              keys_of-fill_heap digest codecs items usefulness db entries [] p.heap k p.filled
                (inl there) in
            elim (l.exhausted k p.same_status refl heaped) [
              | inl known ↦ inl known
              | inr gone ↦ inr (rw (← p.same_dropped) gone)
            ]
      ]

-- ===== src/Vacuum/Loop.antt =====
-- node/src/vacuum.rs: what the pruning loop does to the set of dropped objects.
use samizdat.Prelude.{
  ℕ, leb, ltb, ◌≡◌, refl, ap, sym, ◌∙◌, Bool, true, false, List, [], ◌∷◌, ◌++◌, Option, some,
  >>=-eq-some, eq_of_some, Bool-cases, inl, inr, ◌⊎◌,
}
use samizdat.Hash.{Hash, hash_eq, hash_eq_iff}
use samizdat.Codec.{Codec}
use samizdat.Bookmark.{is_bookmarked}
use samizdat.Collection.Items.{CollectionItem}
use samizdat.Database.{Db, bookmarks}
use samizdat.Objects.Building.{ObjectStatistics, ObjectCodecs}
use samizdat.Objects.Reading.{drop_entries}
use samizdat.Vacuum.{
  insufficient, done, HeapEntry, push, contains_hash, Pruned, fill_heap, drop_object, prune_one,
  prune,
}

contains-cons :
    (x : Hash) (xs : List Hash) (k : Hash)
    → (hash_eq k x ≡ true) ⊎ (contains_hash xs k ≡ true)
    → contains_hash (x ∷ xs) k ≡ true
contains-cons x xs k (inl e) = rw e refl
contains-cons x xs k (inr e) = elim (Bool-cases (hash_eq k x)) [
  | inl same ↦ rw same refl
  | inr differ ↦ rw differ e
]

contains_cases :
    (x : Hash) (xs : List Hash) (k : Hash)
    → contains_hash (x ∷ xs) k ≡ true
    → (hash_eq k x ≡ true) ⊎ (contains_hash xs k ≡ true)
contains_cases x xs k h = elim (Bool-cases (hash_eq k x)) [
  | inl same ↦ inl same
  | inr differ ↦ inr (rw differ at h)
]

contains-append :
    (xs : List Hash) (y k : Hash)
    → (contains_hash xs k ≡ true) ⊎ (hash_eq k y ≡ true)
    → contains_hash (xs ++ y ∷ []) k ≡ true
contains-append [] y k (inl h) = absurd (cc (h))
contains-append [] y k (inr h) = contains-cons y [] k (inl h)
contains-append (x ∷ xs) y k (inr h) =
    contains-cons x (xs ++ y ∷ []) k (inr (contains-append xs y k (inr h)))
contains-append (x ∷ xs) y k (inl h) = elim (contains_cases x xs k h) [
  | inl same ↦ contains-cons x (xs ++ y ∷ []) k (inl same)
  | inr e ↦ contains-cons x (xs ++ y ∷ []) k (inr (contains-append xs y k (inl e)))
]

abbrev pub keys_of : List HeapEntry → List Hash
keys_of [] = []
keys_of (e ∷ heap) = e.key ∷ keys_of heap

abbrev pub listed_keys : List (Hash × List ℕ) → List Hash
listed_keys [] = []
listed_keys ((key, value) ∷ entries) = key ∷ listed_keys entries

keys_of-push :
    (e : HeapEntry) (heap : List HeapEntry) (k : Hash)
    → (hash_eq k e.key ≡ true) ⊎ (contains_hash (keys_of heap) k ≡ true)
    → contains_hash (keys_of (push e heap)) k ≡ true
unfolding push
keys_of-push e [] k h = contains-cons e.key [] k h
keys_of-push e (x ∷ heap) k h = elim (Bool-cases (ltb e.usefulness x.usefulness)) [
  | inl less ↦ rw less (contains-cons e.key (keys_of (x ∷ heap)) k h)
  | inr more ↦
      let behind : (hash_eq k x.key ≡ true) ⊎ (contains_hash (keys_of (push e heap)) k ≡ true) =
        elim h [
          | inl new ↦ inr (keys_of-push e heap k (inl new))
          | inr old ↦ elim (contains_cases x.key (keys_of heap) k old) [
            | inl same ↦ inl same
            | inr there ↦ inr (keys_of-push e heap k (inr there))
          ]
        ] in
      rw more (contains-cons x.key (keys_of (push e heap)) k behind)
]

module _ (digest : List ℕ → Hash) (codecs : ObjectCodecs) (items : Codec CollectionItem)
    (usefulness : ObjectStatistics → ℕ) (db : Db) where
  abbrev pub marked : Hash → Option Bool
  marked k = is_bookmarked codecs.bookmarks (db bookmarks) k

  abbrev pub AllUnmarked : List Hash → Type 0
  AllUnmarked [] = Unit
  AllUnmarked (k ∷ ks) = (marked k ≡ some false) × AllUnmarked ks

  AllUnmarked-append :
      (ks : List Hash) (k : Hash)
      → AllUnmarked ks
      → marked k ≡ some false
      → AllUnmarked (ks ++ k ∷ [])
  AllUnmarked-append [] k all e = (e, tt)
  AllUnmarked-append (x ∷ ks) k (first, rest) e = (first, AllUnmarked-append ks k rest e)

  pub AllUnmarked-contains :
      (ks : List Hash) (k : Hash)
      → AllUnmarked ks
      → contains_hash ks k ≡ true
      → marked k ≡ some false
  AllUnmarked-contains [] k all h = absurd (cc (h))
  AllUnmarked-contains (x ∷ ks) k (first, rest) h = elim (Bool-cases (hash_eq k x)) [
    | inl e ↦ ap marked ((hash_eq_iff k x).0 e) ∙ first
    | inr e ↦ AllUnmarked-contains ks k rest (rw e at h)
  ]

  -- One round: the entry is bookmarked and nothing changes, or it is not, and is dropped.
  record Round (e : HeapEntry) (p p' : Pruned) : Type 0 where
    status_same : p'.status ≡ p.status
    what :
        ((marked e.key ≡ some true) × (p'.dropped ≡ p.dropped))
        ⊎ ((marked e.key ≡ some false) × (p'.dropped ≡ p.dropped ++ e.key ∷ []))

  drop_object-Round :
      (e : HeapEntry) (p p' : Pruned) (flag : Bool)
      → marked e.key ≡ some flag
      → drop_object digest codecs items usefulness db e p flag ≡ some p'
      → Round e p p'
  drop_object-Round e p p' true known h =
      let same = eq_of_some _ _ h in
      record {
        status_same = ap (λ q. q.status) (sym same);
        what = inl (known, ap (λ q. q.dropped) (sym same));
      }
  drop_object-Round e p p' false known h =
      let (entries, got, h2) = >>=-eq-some (drop_entries digest codecs db e.key) _ h in
      let same = eq_of_some _ _ h2 in
      record {
        status_same = ap (λ q. q.status) (sym same);
        what = inr (known, ap (λ q. q.dropped) (sym same));
      }

  prune_one-Round :
      (e : HeapEntry) (p p' : Pruned)
      → prune_one digest codecs items usefulness db e p ≡ some p'
      → Round e p p'
  prune_one-Round e p p' h =
      let (flag, known, h2) = >>=-eq-some (marked e.key) _ h in
      drop_object-Round e p p' flag known h2

  -- What the whole loop does.
  pub record Loop (heap : List HeapEntry) (p q : Pruned) : Type 0 where
    pub unmarked : AllUnmarked p.dropped → AllUnmarked q.dropped
    pub grows : (k : Hash) → contains_hash p.dropped k ≡ true → contains_hash q.dropped k ≡ true
    pub exhausted :
        (k : Hash)
        → q.status ≡ insufficient
        → p.status ≡ done
        → contains_hash (keys_of heap) k ≡ true
        → (marked k ≡ some true) ⊎ (contains_hash q.dropped k ≡ true)

  Round-Loop :
      (e : HeapEntry) (heap : List HeapEntry) (p p' q : Pruned)
      → Round e p p'
      → Loop heap p' q
      → Loop (e ∷ heap) p q
  Round-Loop e heap p p' q r l = record {
    unmarked = λ all. l.unmarked (elim (r.what) [
      | inl (known, same) ↦ rw same all
      | inr (known, same) ↦ rw same (AllUnmarked-append p.dropped e.key all known)
    ]);
    grows = λ k there. l.grows k (elim (r.what) [
      | inl (known, same) ↦ rw same there
      | inr (known, same) ↦ rw same (contains-append p.dropped e.key k (inl there))
    ]);
    exhausted = λ k ended begun there. elim (contains_cases e.key (keys_of heap) k there) [
      | inr later ↦ l.exhausted k ended (r.status_same ∙ begun) later
      | inl here ↦ elim (r.what) [
        | inl (known, same) ↦ inl (ap marked ((hash_eq_iff k e.key).0 here) ∙ known)
        | inr (known, same) ↦
            inr (l.grows k (rw same (contains-append p.dropped e.key k (inr here))))
      ]
    ];
  }

  pub prune-Loop :
      (max_storage : ℕ) (heap : List HeapEntry) (p q : Pruned)
      → prune digest codecs items usefulness db max_storage heap p ≡ some q
      → Loop heap p q
  unfolding prune
  prune-Loop max_storage [] p q h =
      let same = eq_of_some _ _ h in
      elim (Bool-cases (leb max_storage p.total_size)) [
        | inl over ↦ rw (← same) (
            rw over (record {
              unmarked = λ all. all;
              grows = λ k there. there;
              exhausted = λ k ended begun there. absurd (cc (there));
            }))
        | inr under ↦ rw (← same) (
            rw under (record {
              unmarked = λ all. all;
              grows = λ k there. there;
              exhausted = λ k ended begun there. absurd (cc (there));
            }))
      ]
  prune-Loop max_storage (e ∷ heap) p q h = elim (Bool-cases (leb max_storage p.total_size)) [
    | inl over ↦
        let (p', one, rest) =
          >>=-eq-some (prune_one digest codecs items usefulness db e p) _ (rw over at h) in
        Round-Loop e heap p p' q (prune_one-Round e p p' one)
          (prune-Loop max_storage heap p' q rest)
    | inr under ↦
        let same = eq_of_some _ _ (rw under at h) in
        rw (← same) (record {
          unmarked = λ all. all;
          grows = λ k there. there;
          exhausted = λ k ended begun there. absurd (cc (ended, begun));
        })
  ]

  pub keys_of-fill_heap :
      (entries : List (Hash × List ℕ)) (heap full : List HeapEntry) (k : Hash)
      → fill_heap digest codecs items usefulness heap entries ≡ some full
      → (contains_hash (listed_keys entries) k ≡ true) ⊎ (contains_hash (keys_of heap) k ≡ true)
      → contains_hash (keys_of full) k ≡ true
  unfolding fill_heap
  keys_of-fill_heap [] heap full k h (inl there) = absurd (cc (there))
  keys_of-fill_heap [] heap full k h (inr there) = rw (← eq_of_some _ _ h) there
  keys_of-fill_heap ((key, value) ∷ entries) heap full k h placed =
      let (s, got, rest) = >>=-eq-some (codecs.statistics.deserialize value) _ h in
      let e : HeapEntry = record { key = key; size = s.size; usefulness = usefulness s } in
      keys_of-fill_heap entries (push e heap) full k rest (elim placed [
        | inl listed ↦ elim (contains_cases key (listed_keys entries) k listed) [
          | inl same ↦ inr (keys_of-push e heap k (inl same))
          | inr later ↦ inl later
        ]
        | inr heaped ↦ inr (keys_of-push e heap k (inr heaped))
      ])

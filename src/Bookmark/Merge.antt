-- ===== src/Bookmark/Merge.antt =====
-- The merge operator is associative, as the database asks of it: it may merge operands in groups.
use samizdat.Prelude.{
  ℕ, ◌≡◌, refl, ap, sym, ◌∙◌, List, [], ◌∷◌, ◌++◌, Option, none, some, arith, map,
}
use samizdat.Bookmark.{
  MergeOperation, increment, set, no_change, associative, Bincode, merge_operands,
  decode_or_default, try_full_merge, full_merge,
}

-- Three operations are merged to the same operation in either grouping.
pub associative_assoc :
    (a b c : MergeOperation) → associative (associative a b) c ≡ associative a (associative b c)
unfolding associative
associative_assoc (increment a) (increment b) (increment c) = ap increment (omega arith)
associative_assoc (set a) (increment b) (increment c) = ap set (omega arith)
associative_assoc (increment a) (set b) (increment c) = refl
associative_assoc (set a) (set b) (increment c) = refl
associative_assoc (increment a) (increment b) (set c) = refl
associative_assoc (set a) (increment b) (set c) = refl
associative_assoc (increment a) (set b) (set c) = refl
associative_assoc (set a) (set b) (set c) = refl

-- Reading back what was written gives the same operation.
abbrev pub RoundTrips : Bincode → Type 0
RoundTrips b = (m : MergeOperation) → b.decode (b.encode m) ≡ some m

-- The operations of a list, one after another.
unfoldable pub combine : MergeOperation → List MergeOperation → MergeOperation
combine start [] = start
combine start (op ∷ ops) = combine (associative start op) ops

combine_assoc :
    (a c : MergeOperation) (ops : List MergeOperation)
    → combine (associative a c) ops ≡ associative a (combine c ops)
unfolding combine
combine_assoc a c [] = refl
combine_assoc a c (op ∷ ops) =
    ap (λ m. combine m ops) (associative_assoc a c op) ∙ combine_assoc a (associative c op) ops

combine-append :
    (start : MergeOperation) (xs ys : List MergeOperation)
    → combine start (xs ++ ys) ≡ combine (combine start xs) ys
unfolding combine
combine-append start [] ys = refl
combine-append start (x ∷ xs) ys = combine-append (associative start x) xs ys

abbrev pub or_default : Option MergeOperation → MergeOperation
or_default none = no_change
or_default (some m) = m

-- The value at a key that the program has written, or that is missing.
abbrev pub stored : Bincode → Option MergeOperation → Option (List ℕ)
stored b none = none
stored b (some m) = some (b.encode m)

module _ (b : Bincode) (round_trip : RoundTrips b) where
  open b use {encode, decode}

  merge_operands-encode :
      (start : MergeOperation) (ops : List MergeOperation)
      → merge_operands b start (map encode ops) ≡ some (combine start ops)
  unfolding merge_operands combine
  merge_operands-encode start [] = refl
  merge_operands-encode start (op ∷ ops) =
      rw (round_trip op) (merge_operands-encode (associative start op) ops)

  pub decode-stored :
      (m : Option MergeOperation) → decode_or_default b (stored b m) ≡ some (or_default m)
  unfolding decode_or_default
  decode-stored none = refl
  decode-stored (some m) = round_trip m

  -- A full merge of encoded operations stores the operations, one after another.
  pub full_merge-encode :
      (existing : Option MergeOperation) (ops : List MergeOperation)
      → full_merge b (stored b existing) (map encode ops)
        ≡ stored b (some (combine (or_default existing) ops))
  unfolding full_merge try_full_merge
  full_merge-encode existing ops =
      rw (decode-stored existing) (rw (merge_operands-encode (or_default existing) ops) refl)

  -- For operations that were encoded by the program, merging them in two batches, or merging one
  -- operation that combines a group of them, stores the same value as merging them all at once.
  pub full_merge-grouped :
      (existing : Option MergeOperation) (xs ys : List MergeOperation) (op : MergeOperation)
      → (full_merge b (full_merge b (stored b existing) (map encode xs)) (map encode ys)
          ≡ full_merge b (stored b existing) (map encode (xs ++ ys)))
        × (full_merge b (stored b existing) (encode (combine op xs) ∷ [])
            ≡ full_merge b (stored b existing) (map encode (op ∷ xs)))
  full_merge-grouped existing xs ys op = (
    ap (λ o. full_merge b o (map encode ys)) (full_merge-encode existing xs)
        ∙ full_merge-encode (some (combine (or_default existing) xs)) ys
        ∙ ap (λ m. some (encode m)) (sym (combine-append (or_default existing) xs ys))
        ∙ sym (full_merge-encode existing (xs ++ ys)),
    full_merge-encode existing (combine op xs ∷ [])
        ∙ ap (λ m. some (encode m)) (regroup (or_default existing))
        ∙ sym (full_merge-encode existing (op ∷ xs)),
  )
    where
      regroup : (m : MergeOperation) → combine m (combine op xs ∷ []) ≡ combine m (op ∷ xs)
      regroup m = unfold combine in sym (combine_assoc m op xs)

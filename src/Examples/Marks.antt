-- ===== src/Examples/Marks.antt =====
-- Bookmarks: a history of marks, with a simple encoding of the operations.
use samizdat.Prelude.{
  ℕ, zero, suc, ◌+◌, ◌*◌, ◌%◌, ◌^◌, ◌≡◌, refl, not, List, [], ◌∷◌, Option, none, some, ◌==◌,
}
use samizdat.Bookmark.{
  MergeOperation, increment, set, BookmarkType, reference, user, Bincode, full_merge, get_count,
  is_marked,
}
use samizdat.Store.{Table}
use samizdat.Bookmark.Merge.{RoundTrips, combine, full_merge-grouped}
use samizdat.Bookmark.Count.{Action, marked, unmarked, run, bookmark, reference-count}
use samizdat.Examples.{key_of}

abbrev encode_operation : MergeOperation → List ℕ
encode_operation (increment n) = 0 ∷ n ∷ []
encode_operation (set n) = 1 ∷ n ∷ []

abbrev decode_operation : List ℕ → Option MergeOperation
decode_operation (zero ∷ n ∷ []) = some (increment n)
decode_operation (suc zero ∷ n ∷ []) = some (set n)
decode_operation _ = none

abbrev type_byte : BookmarkType → List ℕ
type_byte reference = 0 ∷ []
type_byte user = 1 ∷ []

abbrev pub simple : Bincode
simple = record { encode = encode_operation; decode = decode_operation; encode_type = type_byte }

simple-RoundTrips : RoundTrips simple
simple-RoundTrips (increment n) = refl
simple-RoundTrips (set n) = refl

abbrev empty : Table
empty k = none

abbrev history : List Action
history = marked ∷ marked ∷ unmarked ∷ []

reference-count_example :
    (get_count simple
        (run simple simple-RoundTrips empty (bookmark reference (key_of 5)) history)
        (bookmark reference (key_of 5))
      ≡ some ((2 + 65535 * 1) % 2 ^ 16))
    × (is_marked simple
          (run simple simple-RoundTrips empty (bookmark reference (key_of 5)) history)
          (bookmark reference (key_of 5))
        ≡ some (not (2 % 2 ^ 16 == 1 % 2 ^ 16)))
reference-count_example = reference-count simple simple-RoundTrips history empty (key_of 5) refl

full_merge-grouped_example :
    (full_merge simple
        (full_merge simple none (encode_operation (increment 1) ∷ []))
        (encode_operation (set 4) ∷ [])
      ≡ full_merge simple none (encode_operation (increment 1) ∷ encode_operation (set 4) ∷ []))
    × (full_merge simple none (encode_operation (combine (set 3) (increment 1 ∷ [])) ∷ [])
        ≡ full_merge simple none (encode_operation (set 3) ∷ encode_operation (increment 1) ∷ []))
full_merge-grouped_example =
    full_merge-grouped simple simple-RoundTrips none (increment 1 ∷ []) (set 4 ∷ []) (set 3)

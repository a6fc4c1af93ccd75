-- ===== src/Examples/Vacuums.antt =====
-- A round of the vacuum over two objects, one of them bookmarked.
use samizdat.Prelude.{ℕ, ◌≡◌, refl, false, List, [], ◌∷◌, ◌++◌, none, some}
use samizdat.Hash.{Hash, hash_eq}
use samizdat.Codec.{Codec}
use samizdat.Bookmark.{key, is_bookmarked, is_marked, get_count, decode_or_default, eval_on_zero}
use samizdat.Collection.Items.{CollectionItem}
use samizdat.Database.{Db, put_cf, bookmarks}
use samizdat.Objects.Building.{ObjectStatistics}
use samizdat.Objects.Reading.{drop_entries, metadata}
use samizdat.Vacuum.{insufficient, push, sum_sizes, fill_heap, prune, prune_items, vacuum}
use samizdat.Vacuum.Kept.{is_bookmarked-vacuum}
use samizdat.Examples.{key_of, toy}
use samizdat.Examples.Objects.{formats, empty_db}

-- No items are listed, so that none is read.
abbrev no_items : Codec CollectionItem
no_items = record { serialize = λ item. []; deserialize = λ bytes. none }

abbrev by_touches : ObjectStatistics → ℕ
by_touches s = s.touches

-- The object of the key 2 has a bookmark.
abbrev marked_db : Db
marked_db = put_cf empty_db bookmarks (key_of 2 ++ 1 ∷ []) (1 ∷ 1 ∷ [])

abbrev listed : List (Hash × List ℕ)
listed = (key_of 1, 30 ∷ 12 ∷ 12 ∷ 4 ∷ []) ∷ (key_of 2, 50 ∷ 12 ∷ 12 ∷ 1 ∷ []) ∷ []

is_bookmarked-vacuum_example :
    is_bookmarked formats.bookmarks (marked_db bookmarks) (key_of 1) ≡ some false
unfolding vacuum sum_sizes fill_heap prune prune_items push is_bookmarked is_marked get_count
    decode_or_default eval_on_zero drop_entries metadata key hash_eq
is_bookmarked-vacuum_example =
    is_bookmarked-vacuum toy formats no_items by_touches marked_db 40 listed [] insufficient
      marked_db (key_of 1 ∷ []) (key_of 1) refl refl

-- ===== src/Bookmark.antt =====
-- node/src/db/mod.rs: `MergeOperation`; node/src/models/bookmark.rs: `Bookmark`. An `i16` is its bit
-- pattern, a number below 2 ^ 16, whose sums wrap around. The bytes that `bincode` makes are a
-- parameter.
pub mod Merge
pub mod Count
use samizdat.Prelude.{
  ℕ, ◌+◌, ◌%◌, ◌^◌, Bool, true, false, not, List, [], ◌∷◌, ◌++◌, Option, none, some, ◌==◌, ◌||◌,
  if◌then◌else◌, ◌>>=◌,
}
use samizdat.Store.{Table, put}
use samizdat.Hash.{Hash, hash_eq}

abbrev pub add_i16 : ℕ → ℕ → ℕ
add_i16 a b = (a + b) % 2 ^ 16

pub data MergeOperation : Type 0 where
  increment : ℕ → MergeOperation
  set : ℕ → MergeOperation

-- `MergeOperation::default()`
abbrev pub no_change : MergeOperation
no_change = increment 0

unfoldable pub associative : MergeOperation → MergeOperation → MergeOperation
associative (increment inc1) (increment inc2) = increment (add_i16 inc1 inc2)
associative (set val) (increment inc) = set (add_i16 val inc)
associative (increment inc) (set val) = set val
associative (set old) (set val) = set val

unfoldable pub eval_on_zero : MergeOperation → ℕ
eval_on_zero (increment inc) = inc
eval_on_zero (set val) = val

pub data BookmarkType : Type 0 where
  reference user : BookmarkType

-- A bookmark is a type and an object, which is its hash.
pub record Bookmark : Type 0 where
  pub ty : BookmarkType
  pub object : Hash

-- `bincode` for operations and bookmark types.
pub record Bincode : Type 0 where
  pub encode : MergeOperation → List ℕ
  pub decode : List ℕ → Option MergeOperation
  pub encode_type : BookmarkType → List ℕ

-- What a `WriteBatch` holds for the table of bookmarks.
pub data BatchEntry : Type 0 where
  merge_cf : List ℕ → List ℕ → BatchEntry
  delete_cf : List ℕ → BatchEntry

abbrev pub or_existing : Option (List ℕ) → Option (List ℕ) → Option (List ℕ)
or_existing existing none = existing
or_existing existing (some bytes) = some bytes

module _ (b : Bincode) where
  open b use {encode, decode, encode_type}

  -- The loop over the operands; `none` is the error of `bincode::deserialize`.
  unfoldable pub merge_operands : MergeOperation → List (List ℕ) → Option MergeOperation
  merge_operands current [] = some current
  merge_operands current (operand ∷ operands) = do
    right ← decode operand
    merge_operands (associative current right) operands

  -- `existing_val.map(deserialize).transpose()?.unwrap_or_default()`
  unfoldable pub decode_or_default : Option (List ℕ) → Option MergeOperation
  decode_or_default none = some no_change
  decode_or_default (some bytes) = decode bytes

  unfoldable pub try_full_merge : Option (List ℕ) → List (List ℕ) → Option (List ℕ)
  try_full_merge existing operands = do
    start ← decode_or_default existing
    current ← merge_operands start operands
    some (encode current)

  -- On an error the existing value stays.
  unfoldable pub full_merge : Option (List ℕ) → List (List ℕ) → Option (List ℕ)
  full_merge existing operands = or_existing existing (try_full_merge existing operands)

  -- `db().write(batch)` on this table.
  unfoldable pub apply_entry : Table → BatchEntry → Table
  apply_entry t (merge_cf key operand) = put t key (full_merge (t key) (operand ∷ []))
  apply_entry t (delete_cf key) = put t key none

  unfoldable pub write : Table → List BatchEntry → Table
  write t [] = t
  write t (entry ∷ batch) = write (apply_entry t entry) batch

  unfoldable pub key : Bookmark → List ℕ
  key m = m.object ++ encode_type m.ty

  abbrev pub mark_operation : BookmarkType → MergeOperation
  mark_operation reference = increment 1
  mark_operation user = set 1

  -- `-1` is the bit pattern 2 ^ 16 - 1.
  abbrev pub unmark_operation : BookmarkType → MergeOperation
  unmark_operation reference = increment 65535
  unmark_operation user = set 0

  -- These push onto the batch, whose entries are kept in order.
  unfoldable pub mark_with : Bookmark → List BatchEntry → List BatchEntry
  mark_with m batch = batch ++ merge_cf (key m) (encode (mark_operation m.ty)) ∷ []

  unfoldable pub unmark_with : Bookmark → List BatchEntry → List BatchEntry
  unmark_with m batch = batch ++ merge_cf (key m) (encode (unmark_operation m.ty)) ∷ []

  unfoldable pub clear_with : Bookmark → List BatchEntry → List BatchEntry
  clear_with m batch = batch ++ delete_cf (key m) ∷ []

  unfoldable pub mark : Table → Bookmark → Table
  mark t m = write t (mark_with m [])

  unfoldable pub unmark : Table → Bookmark → Table
  unmark t m = write t (unmark_with m [])

  -- `none` is the error of `bincode::deserialize`.
  unfoldable pub get_count : Table → Bookmark → Option ℕ
  get_count t m = do operation ← decode_or_default (t (key m)); some (eval_on_zero operation)

  unfoldable pub is_marked : Table → Bookmark → Option Bool
  is_marked t m = do count ← get_count t m; some (not (count == 0))

  -- `ObjectRef::is_bookmarked`
  unfoldable pub is_bookmarked : Table → Hash → Option Bool
  is_bookmarked t object = do
    by_reference ← is_marked t (record { ty = reference; object = object })
    if by_reference then some true else is_marked t (record { ty = user; object = object })

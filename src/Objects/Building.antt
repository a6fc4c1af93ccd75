-- ===== src/Objects/Building.antt =====
-- node/src/models/object.rs: `ObjectRef::build` and `ObjectRef::import`. The chunks are written while
-- the source is read, and the rest at once at the end.
pub mod Chunks
pub mod Cuts
pub mod Imports
use samizdat.Prelude.{
  map, ℕ, zero, suc, ◌+◌, ◌==◌, ltb, Bool, true, false, List, [], ◌∷◌, ◌++◌, Option, none, some,
  ◌>>=◌, if◌then◌else◌, length, take,
}
use samizdat.Hash.{Hash}
use samizdat.Codec.{Codec}
use samizdat.Merkle.{MerkleTree, from_leaves, root, hashes}
use samizdat.Bookmark.{Bincode, Bookmark, BookmarkType, user, mark_with}
use samizdat.Database.{
  Db, Entry, put_entry, put_cf, write_batch, bookmark_entries, objects, object_metadata,
  object_chunks, object_statistics,
}
use samizdat.Objects.Header.{chunk_size, ObjectHeader, buffer, read_header}

pub record ObjectMetadata : Type 0 where
  pub hashes : List Hash
  pub header : ObjectHeader
  pub content_size : ℕ
  pub received_at : ℕ

-- The empty value under an object's hash in the table of objects.
abbrev pub no_value : List ℕ
no_value = []

pub record ObjectStatistics : Type 0 where
  pub size : ℕ
  pub created_at : ℕ
  pub last_touched_at : ℕ
  pub touches : ℕ

-- `bincode` for what the tables hold.
pub record ObjectCodecs : Type 0 where
  pub headers : Codec ObjectHeader
  pub metadata : Codec ObjectMetadata
  pub statistics : Codec ObjectStatistics
  pub bookmarks : Bincode

-- What the clock says in the calls of `now`.
pub record Clock : Type 0 where
  pub received_at : ℕ
  pub created_at : ℕ
  pub touched_at : ℕ

-- `ObjectStatistics::new` and `touch`
abbrev pub new_statistics : ℕ → Clock → ObjectStatistics
new_statistics size clock = record {
  size = size;
  created_at = clock.created_at;
  last_touched_at = clock.touched_at;
  touches = 1;
}

abbrev pub touch_statistics : ObjectStatistics → ℕ → ObjectStatistics
touch_statistics s now = record s { last_touched_at = now; touches = s.touches + 1 }

-- The buffer after bytes were pushed, how many they were, and the source behind them.
pub record Filled : Type 0 where
  pub filled : List ℕ
  pub pushed : ℕ
  pub source : List (Option ℕ)

abbrev pub one_more : Filled → Filled
one_more f = record { filled = f.filled; pushed = suc f.pushed; source = f.source }

-- The inner loop, to the end of the source or to a full buffer; `none` is an error of the source.
unfoldable pub fill : ℕ → List ℕ → List (Option ℕ) → Option Filled
fill limit buf [] = some (record { filled = buf; pushed = 0; source = [] })
fill limit buf (none ∷ source) = none
fill limit buf (some byte ∷ source) =
    let more = fill limit (buf ++ byte ∷ []) source in
    if length (buf ++ byte ∷ []) == limit
    then some (record { filled = buf ++ byte ∷ []; pushed = 1; source = source })
    else (do f ← more; some (one_more f))

-- What the outer loop has at hand from one round to the next.
pub record Progress : Type 0 where
  pub db : Db
  pub hashes : List Hash
  pub content_size : ℕ
  pub maybe_header : Option ObjectHeader

-- How the outer loop ends; an error leaves the chunks that were written, and `broken` is one of the source.
pub data Chunking : Type 0 where
  out_of_fuel : Chunking
  broken failed : Db → Chunking
  chunked : Progress → Chunking

-- How a call ends: with a new object, with an error or a panic.
pub data Ending : Type 0 where
  unfinished panicked : Ending
  refused : Db → Ending
  stored : Db → Hash → Ending

module _ (digest : List ℕ → Hash) (codecs : ObjectCodecs) where
  -- A chunk is put under its hash.
  abbrev pub put_chunk : Db → List ℕ → Db
  put_chunk db chunk = put_cf db object_chunks (digest chunk) chunk

  abbrev pub add_chunk : Progress → List ℕ → ℕ → Option ObjectHeader → Progress
  add_chunk p chunk size header = record {
    db = put_chunk p.db chunk;
    hashes = p.hashes ++ digest chunk ∷ [];
    content_size = p.content_size + size;
    maybe_header = header;
  }

  -- One round of the loop of `build`: `next` is the next round.
  abbrev pub build_round :
      ℕ → Progress → (List (Option ℕ) → Progress → Chunking) → Option Filled → Chunking
  build_round limit p next none = broken p.db
  build_round limit p next (some f) =
      let p' = add_chunk p f.filled (length f.filled) p.maybe_header in
      let more = next f.source p' in if ltb (length f.filled) limit then chunked p' else more

  unfoldable pub build_loop : ℕ → ℕ → List ℕ → List (Option ℕ) → Progress → Chunking
  build_loop limit zero buf source p = out_of_fuel
  build_loop limit (suc fuel) buf source p =
      build_round limit p (λ rest p'. build_loop limit fuel [] rest p') (fill limit buf source)

  -- `if maybe_header.is_none()`: the header is read from the first chunk.
  abbrev pub header_of : Option ObjectHeader → List ℕ → Option ObjectHeader
  header_of (some header) chunk = some header
  header_of none chunk = do
    (read, header, rest) ← read_header codecs.headers (map some chunk)
    some header

  -- One round of the loop of `import`.
  abbrev pub import_header :
      ℕ
      → Progress
      → (List (Option ℕ) → Progress → Chunking)
      → Filled
      → Option ObjectHeader
      → Chunking
  import_header limit p next f none = failed (put_chunk p.db f.filled)
  import_header limit p next f (some header) =
      let p' = add_chunk p f.filled f.pushed (some header) in
      let more = next f.source p' in if ltb (length f.filled) limit then chunked p' else more

  abbrev pub import_round :
      ℕ → Progress → (List (Option ℕ) → Progress → Chunking) → Option Filled → Chunking
  import_round limit p next none = broken p.db
  import_round limit p next (some f) =
      import_header limit p next f (header_of p.maybe_header f.filled)

  unfoldable pub import_loop : ℕ → ℕ → List (Option ℕ) → Progress → Chunking
  import_loop limit zero source p = out_of_fuel
  import_loop limit (suc fuel) source p =
      import_round limit p (λ rest p'. import_loop limit fuel rest p') (fill limit [] source)

  -- The batch at the end.
  abbrev pub object_batch : Hash → ObjectMetadata → ObjectStatistics → Bool → List Entry
  object_batch hash metadata statistics bookmark =
      put_entry objects hash no_value
      ∷ put_entry object_metadata hash (codecs.metadata.serialize metadata)
      ∷ put_entry object_statistics hash (codecs.statistics.serialize statistics)
      ∷ (if bookmark
          then bookmark_entries
              (mark_with codecs.bookmarks (record { ty = user; object = hash }) [])
          else [])

  abbrev pub commit : Progress → ObjectHeader → Bool → Clock → List Hash → Hash → Ending
  commit p header bookmark clock leaves hash =
      let metadata : ObjectMetadata = record {
        hashes = leaves;
        header = header;
        content_size = p.content_size;
        received_at = clock.received_at;
      } in
      stored
        (write_batch codecs.bookmarks p.db
          (object_batch hash metadata (new_statistics p.content_size clock) bookmark))
        hash

  -- The part behind the loop, from the Merkle tree on: `panicked` where there is no leaf, and `refused`
  -- is `Error::NoHeaderRead`.
  abbrev pub with_leaves :
      Progress → Bool → Clock → Option Hash → Option (List Hash) → Option ObjectHeader → Ending
  with_leaves p bookmark clock (some hash) (some leaves) (some header) =
      commit p header bookmark clock leaves hash
  with_leaves p bookmark clock (some hash) (some leaves) none = refused p.db
  with_leaves p bookmark clock (some hash) none header = panicked
  with_leaves p bookmark clock none leaves header = panicked

  abbrev pub finish : Bool → Clock → Chunking → Ending
  finish bookmark clock out_of_fuel = unfinished
  finish bookmark clock (broken db) = refused db
  finish bookmark clock (failed db) = refused db
  finish bookmark clock (chunked p) =
      let merkle_tree = from_leaves digest p.hashes in
      with_leaves p bookmark clock (root merkle_tree) (hashes merkle_tree) p.maybe_header

  abbrev pub start : Db → Option ObjectHeader → Progress
  start db header = record { db = db; hashes = []; content_size = 0; maybe_header = header }

  -- `ObjectRef::build`, with enough fuel for the source.
  unfoldable pub build : Db → ObjectHeader → Bool → Clock → List (Option ℕ) → Ending
  build db header bookmark clock source = finish bookmark clock (
      build_loop chunk_size (2 + length source) (buffer codecs.headers header) source
        (start db (some header)))

  -- The loop of `import` over the limited source.
  abbrev pub import_chunks : Db → ℕ → List (Option ℕ) → Chunking
  import_chunks db expected_content_size source =
      let limited_source = take expected_content_size source in
      import_loop chunk_size (2 + length limited_source) limited_source (start db none)

  -- `ObjectRef::import`
  unfoldable pub import : Db → ℕ → Bool → Clock → List (Option ℕ) → Ending
  import db expected_content_size bookmark clock source =
      finish bookmark clock (import_chunks db expected_content_size source)

  -- The same call with a source that may fail in another way than with an error.
  abbrev pub finish_as : (Db → Ending) → Bool → Clock → Chunking → Ending
  finish_as failure bookmark clock out_of_fuel = finish bookmark clock out_of_fuel
  finish_as failure bookmark clock (broken db) = failure db
  finish_as failure bookmark clock (failed db) = finish bookmark clock (failed db)
  finish_as failure bookmark clock (chunked p) = finish bookmark clock (chunked p)

  unfoldable pub import_as : (Db → Ending) → Db → ℕ → Bool → Clock → List (Option ℕ) → Ending
  import_as failure db expected_content_size bookmark clock source =
      finish_as failure bookmark clock (import_chunks db expected_content_size source)

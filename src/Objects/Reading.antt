-- ===== src/Objects/Reading.antt =====
-- node/src/models/object.rs: what is read of an object, and how it is touched and dropped. In a result
-- the outer `none` is an error: a missing chunk, or bytes that cannot be read back.
pub mod Built
pub mod Contents
pub mod Dropping
pub mod Iterating
use samizdat.Prelude.{
  ℕ, ◌+◌, Bool, true, false, List, [], ◌∷◌, ◌++◌, Option, none, some, ◌>>=◌, if◌then◌else◌, map,
}
use samizdat.Hash.{Hash}
use samizdat.Codec.{Codec}
use samizdat.Riddle.{Riddle, resolves}
use samizdat.Bookmark.{BookmarkType, reference, user, clear_with}
use samizdat.Database.{
  Db, Entry, delete_entry, put_cf, write_batch, bookmark_entries, objects, object_metadata,
  object_chunks, object_statistics,
}
use samizdat.Objects.Header.{ObjectHeader, read_header, reissue_header}
use samizdat.Objects.Building.{
  ObjectMetadata, ObjectStatistics, ObjectCodecs, Clock, Ending, refused, touch_statistics, build,
}

abbrev pub get_chunk : Db → Hash → Option (List ℕ)
get_chunk db hash = db object_chunks hash

pub record ContentIter : Type 0 where
  pub hashes : List Hash
  pub current_chunk : Option (List ℕ)
  pub is_error : Bool

-- The next byte of a chunk, and the bytes behind it.
abbrev pub next_byte : Option (List ℕ) → Option (ℕ × List ℕ)
next_byte none = none
next_byte (some []) = none
next_byte (some (byte ∷ chunk)) = some (byte, chunk)

-- What `next` returns: nothing at the end, and otherwise a byte, or `none` for an error.
abbrev pub Yield : Type 0
Yield = ContentIter × Option (Option ℕ)

-- A chunk that was fetched: its first byte, or the next chunk if it has none. The iterator keeps the
-- chunk that has run out where there is no other.
abbrev pub from_chunk : Option (List ℕ) → List Hash → Yield → Option (List ℕ) → Yield
from_chunk current rest again none =
    (record { hashes = rest; current_chunk = current; is_error = true }, some none)
from_chunk current rest again (some []) = again
from_chunk current rest again (some (byte ∷ chunk)) =
    (record { hashes = rest; current_chunk = some chunk; is_error = false }, some (some byte))

-- `next` where the current chunk has run out.
unfoldable pub next_chunk : Db → Option (List ℕ) → List Hash → Yield
next_chunk db current [] = (record { hashes = []; current_chunk = current; is_error = false }, none)
next_chunk db current (hash ∷ rest) =
    from_chunk current rest (next_chunk db (some []) rest) (get_chunk db hash)

abbrev pub next_in : Db → ContentIter → Option (ℕ × List ℕ) → Yield
next_in db it none = next_chunk db it.current_chunk it.hashes
next_in db it (some (byte, chunk)) = (record it { current_chunk = some chunk }, some (some byte))

-- `ContentIter::next`
unfoldable pub next : Db → ContentIter → Yield
next db it = if it.is_error then (it, none) else next_in db it (next_byte it.current_chunk)

-- All that chunks yield in turn, up to the first error.
abbrev pub chunk_then : Option (List ℕ) → List (Option ℕ) → List (Option ℕ)
chunk_then none rest = none ∷ []
chunk_then (some chunk) rest = map some chunk ++ rest

unfoldable pub stream : Db → List Hash → List (Option ℕ)
stream db [] = []
stream db (hash ∷ rest) = chunk_then (get_chunk db hash) (stream db rest)

-- `collect::<Result<Vec<_>, _>>()`
unfoldable pub collect : List (Option ℕ) → Option (List ℕ)
collect [] = some []
collect (none ∷ source) = none
collect (some byte ∷ source) = do bytes ← collect source; some (byte ∷ bytes)

-- `ChunkIter`, collected: the chunks in order, or an error where one is missing.
unfoldable pub collect_chunks : Db → List Hash → Option (List (List ℕ))
collect_chunks db [] = some []
collect_chunks db (hash ∷ rest) = do
  chunk ← get_chunk db hash
  chunks ← collect_chunks db rest
  some (chunk ∷ chunks)

abbrev pub read_back : {T : Type 0} → Codec T → Option (List ℕ) → Option (Option T)
read_back codec none = some none
read_back codec (some bytes) = do x ← codec.deserialize bytes; some (some x)

module _ (digest : List ℕ → Hash) (codecs : ObjectCodecs) where
  unfoldable pub metadata : Db → Hash → Option (Option ObjectMetadata)
  metadata db hash = read_back codecs.metadata (db object_metadata hash)

  unfoldable pub statistics : Db → Hash → Option (Option ObjectStatistics)
  statistics db hash = read_back codecs.statistics (db object_statistics hash)

  abbrev pub touched : Db → Hash → ℕ → Option ObjectStatistics → Db
  touched db hash now none = db
  touched db hash now (some s) =
      put_cf db object_statistics hash (codecs.statistics.serialize (touch_statistics s now))

  unfoldable pub touch : Db → Hash → ℕ → Option Db
  touch db hash now = do found ← statistics db hash; some (touched db hash now found)

  -- `iter_content`, as what the iterator yields.
  abbrev pub content_of : Db → Option ObjectMetadata → Option (List (Option ℕ))
  content_of db none = none
  content_of db (some m) = some (stream db m.hashes)

  unfoldable pub iter_content : Db → Hash → Option (Option (List (Option ℕ)))
  iter_content db hash = do found ← metadata db hash; some (content_of db found)

  abbrev pub skip_header : Option (List (Option ℕ)) → Option (Option (List (Option ℕ)))
  skip_header none = some none
  skip_header (some source) = do
    (read, header, rest) ← read_header codecs.headers source
    some (some rest)

  unfoldable pub iter_skip_header : Db → Hash → Option (Option (List (Option ℕ)))
  iter_skip_header db hash = iter_content db hash >>= skip_header

  abbrev pub collect_content : Option (List (Option ℕ)) → Option (Option (List ℕ))
  collect_content none = some none
  collect_content (some source) = do bytes ← collect source; some (some bytes)

  unfoldable pub content : Db → Hash → Option (Option (List ℕ))
  content db hash = iter_skip_header db hash >>= collect_content

  abbrev pub chunks_of : Db → Option ObjectMetadata → Option (Option (List (List ℕ)))
  chunks_of db none = some none
  chunks_of db (some m) = do found ← collect_chunks db m.hashes; some (some found)

  -- `chunks`, with its iterator collected.
  unfoldable pub chunks : Db → Hash → Option (Option (List (List ℕ)))
  chunks db hash = metadata db hash >>= chunks_of db

  abbrev pub draft_of : Option ObjectMetadata → Bool
  draft_of none = true
  draft_of (some m) = m.header.is_draft

  unfoldable pub is_draft : Db → Hash → Option Bool
  is_draft db hash = do found ← metadata db hash; some (draft_of found)

  -- `reissue`: `none` for an object that does not exist, and `refused` for an error while reading.
  abbrev pub reissue_from :
      Db → Bool → Clock → ℕ → Option (Option (List (Option ℕ))) → Option Ending
  reissue_from db bookmark clock random none = some (refused db)
  reissue_from db bookmark clock random (some none) = none
  reissue_from db bookmark clock random (some (some source)) =
      some (elim (read_header codecs.headers source) [
        | none ↦ refused db
        | some (read, header, rest) ↦
            build digest codecs db (reissue_header header random) bookmark clock rest
      ])

  unfoldable pub reissue : Db → Hash → Bool → Clock → ℕ → Option Ending
  reissue db hash bookmark clock random =
      reissue_from db bookmark clock random (iter_content db hash)

  abbrev pub delete_chunks : List Hash → List Entry
  delete_chunks [] = []
  delete_chunks (hash ∷ hashes) = delete_entry object_chunks hash ∷ delete_chunks hashes

  abbrev pub drop_known : Hash → Option ObjectMetadata → List Entry
  drop_known hash none = []
  drop_known hash (some m) =
      delete_chunks m.hashes
      ++ bookmark_entries (
          clear_with codecs.bookmarks (record { ty = user; object = hash })
            (clear_with codecs.bookmarks (record { ty = reference; object = hash }) []))
      ++ delete_entry object_statistics hash
        ∷ delete_entry object_metadata hash
        ∷ delete_entry objects hash
        ∷ []

  -- `drop_if_exists_with`: the entries that are added to the batch.
  unfoldable pub drop_entries : Db → Hash → Option (List Entry)
  drop_entries db hash = do found ← metadata db hash; some (drop_known hash found)

  -- `Droppable::drop_if_exists`
  unfoldable pub drop_if_exists : Db → Hash → Option Db
  drop_if_exists db hash = do
    batch ← drop_entries db hash
    some (write_batch codecs.bookmarks db batch)

-- `ObjectRef::find`, over the keys of the table of objects that are hashes.
unfoldable pub find : (List ℕ → Hash) → Riddle → List Hash → Option Hash
find digest riddle [] = none
find digest riddle (hash ∷ keys) =
    let rest = find digest riddle keys in if resolves digest riddle hash then some hash else rest

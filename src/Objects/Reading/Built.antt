-- ===== src/Objects/Reading/Built.antt =====
-- An object that was built is read back: its metadata, its chunks and its content.
use samizdat.Prelude.{
  ℕ, ◌+◌, ◌<◌, ◌≡◌, refl, ap, ◌∙◌, Bool, true, false, List, [], ◌∷◌, ◌++◌, some, arith, map, length,
  inl, inr, ◌⊎◌,
}
use samizdat.Hash.{Hash}
use samizdat.Codec.{ReadsBack}
use samizdat.Patricia.Proof.Binding.{Collision}
use samizdat.Merkle.{from_leaves, root, hashes}
use samizdat.Merkle.Levels.{from_leaves_lem}
use samizdat.Bookmark.{mark_with}
use samizdat.Database.{Db, write_batch, object_chunks, object_statistics}
use samizdat.Objects.Header.{chunk_size, ObjectHeader, buffer}
use samizdat.Objects.Header.Escaping.{oks, oks-append, length-oks, read_header-buffer}
use samizdat.Objects.Building.{
  ObjectMetadata, ObjectStatistics, ObjectCodecs, Clock, Progress, Ending, stored, chunked,
  object_batch, build_loop, new_statistics, with_leaves, finish, start, build,
}
use samizdat.Objects.Building.Cuts.{concat, add_chunks, Cut, build_loop-Cut}
use samizdat.Objects.Reading.{
  collect_chunks, metadata, iter_content, iter_skip_header, content, chunks,
}
use samizdat.Objects.Reading.Contents.{
  hash_eq_refl, stream-collect_chunks, collect-oks, hashes-add_chunks, size-add_chunks,
  header-add_chunks, collect_chunks-add_chunks,
}

module _ (digest : List ℕ → Hash) (codecs : ObjectCodecs) where
  -- The tables hold an object: its metadata, and its chunks.
  pub record Holds (db : Db) (hash : Hash) (header : ObjectHeader) (cs : List (List ℕ))
      : Type 0 where
    pub received_at : ℕ
    pub known :
        metadata digest codecs db hash
        ≡ some (
            some (record {
              hashes = map digest cs;
              header = header;
              content_size = length (concat cs);
              received_at = received_at;
            }))
    pub used : ObjectStatistics
    pub used_stored : db object_statistics hash ≡ some (codecs.statistics.serialize used)
    pub readable : collect_chunks db (map digest cs) ≡ some cs
    pub rooted : root (from_leaves digest (map digest cs)) ≡ some hash

  after_batch :
      (db : Db) (hash : Hash) (m : ObjectMetadata) (size : ℕ) (clock : Clock) (bookmark : Bool)
      → ReadsBack codecs.metadata
      → (metadata digest codecs
            (write_batch codecs.bookmarks db
              (object_batch digest codecs hash m (new_statistics size clock) bookmark))
            hash
          ≡ some (some m))
        × (write_batch codecs.bookmarks db
              (object_batch digest codecs hash m (new_statistics size clock) bookmark)
              object_statistics
              hash
            ≡ some (codecs.statistics.serialize (new_statistics size clock)))
        × (write_batch codecs.bookmarks db
              (object_batch digest codecs hash m (new_statistics size clock) bookmark)
              object_chunks
            ≡ db object_chunks)
  unfolding metadata mark_with
  after_batch db hash m size clock true back =
      (rw (hash_eq_refl hash) (rw (back.round_trip m) refl), rw (hash_eq_refl hash) refl, refl)
  after_batch db hash m size clock false back =
      (rw (hash_eq_refl hash) (rw (back.round_trip m) refl), rw (hash_eq_refl hash) refl, refl)

  pub collect_chunks_same :
      (db other : Db) (keys : List Hash)
      → db object_chunks ≡ other object_chunks
      → collect_chunks db keys ≡ collect_chunks other keys
  unfolding collect_chunks
  collect_chunks_same db other [] same = refl
  collect_chunks_same db other (key ∷ keys) same =
      rw same (rw (collect_chunks_same db other keys same) refl)

  abbrev pub Stores : ObjectHeader → List (List ℕ) → Ending → Type 0
  Stores header cs ending =
      (db : Db) × (hash : Hash) × (ending ≡ stored db hash)
      × (Holds db hash header cs ⊎ Collision digest)

  finish-Stores :
      (p : Progress) (header : ObjectHeader) (bookmark : Bool) (clock : Clock) (first : List ℕ)
      (others : List (List ℕ))
      → p.hashes ≡ map digest (first ∷ others)
      → p.maybe_header ≡ some header
      → p.content_size ≡ length (concat (first ∷ others))
      → (collect_chunks p.db (map digest (first ∷ others)) ≡ some (first ∷ others))
        ⊎ Collision digest
      → ReadsBack codecs.metadata
      → Stores header (first ∷ others) (finish digest codecs bookmark clock (chunked p))
  finish-Stores p header bookmark clock first others leaves known size reads back =
      let cs = first ∷ others in
      let ((hash, top), below, count) = from_leaves_lem digest (map digest cs) (omega arith) in
      let m : ObjectMetadata = record {
        hashes = map digest cs;
        header = header;
        content_size = p.content_size;
        received_at = clock.received_at;
      } in
      let batch =
        object_batch digest codecs hash m (new_statistics p.content_size clock) bookmark in
      let after = after_batch p.db hash m p.content_size clock bookmark back in
      let ends =
        ap
          (λ l.
            with_leaves digest codecs p bookmark clock (root (from_leaves digest l))
              (hashes (from_leaves digest l)) p.maybe_header)
          leaves
        ∙ ap
            (λ r.
              with_leaves digest codecs p bookmark clock r
                (hashes (from_leaves digest (map digest cs))) p.maybe_header)
            top
        ∙ ap (λ l. with_leaves digest codecs p bookmark clock (some hash) l p.maybe_header) below
        ∙ ap (λ h. with_leaves digest codecs p bookmark clock (some hash) (some (map digest cs)) h)
            known in
      (
        write_batch codecs.bookmarks p.db batch,
        hash,
        ends,
        elim reads [
          | inl all ↦ inl (record {
            received_at = clock.received_at;
            known = rw (← size) after.0;
            used = new_statistics p.content_size clock;
            used_stored = after.1;
            readable = collect_chunks_same _ p.db (map digest cs) after.2 ∙ all;
            rooted = top;
          })
          | inr collision ↦ inr collision
        ],
      )

  -- The chunks of an object with this header and content.
  abbrev pub cut_of :
      (header : ObjectHeader) (bytes : List ℕ)
      → length (buffer codecs.headers header) < chunk_size
      → Cut digest codecs chunk_size (buffer codecs.headers header ++ bytes) (λ p.
        build_loop digest codecs chunk_size
          (2 + length (oks bytes))
          (buffer codecs.headers header)
          (oks bytes)
          p)
  cut_of header bytes small =
      build_loop-Cut digest codecs chunk_size (omega arith) (2 + length (oks bytes))
        (buffer codecs.headers header) bytes small (omega (arith, length-oks bytes))

  abbrev pub pieces :
      (header : ObjectHeader) (bytes : List ℕ)
      → length (buffer codecs.headers header) < chunk_size
      → List (List ℕ)
  pieces header bytes small = let c = cut_of header bytes small in c.first ∷ c.others

  -- Building an object from bytes that are read without an error ends with a stored object, which the
  -- tables then hold.
  pub build-Stores :
      (db : Db) (header : ObjectHeader) (bookmark : Bool) (clock : Clock) (bytes : List ℕ)
      (small : length (buffer codecs.headers header) < chunk_size)
      → ReadsBack codecs.metadata
      → Stores header
          (pieces header bytes small)
          (build digest codecs db header bookmark clock (oks bytes))
  unfolding build
  build-Stores db header bookmark clock bytes small back =
      let begin = start digest codecs db (some header) in
      let c = cut_of header bytes small in
      let cs = c.first ∷ c.others in
      let p = add_chunks digest codecs begin cs in
      let ends =
        finish-Stores p header bookmark clock c.first c.others
          (hashes-add_chunks digest codecs begin cs) (header-add_chunks digest codecs begin cs)
          (omega (arith, size-add_chunks digest codecs begin cs))
          (collect_chunks-add_chunks digest codecs begin cs) back in
      (ends.0, ends.1, ap (finish digest codecs bookmark clock) (c.runs begin) ∙ ends.2, ends.3)

  iter_content-Holds :
      (db : Db) (hash : Hash) (header : ObjectHeader) (bytes : List ℕ) (cs : List (List ℕ))
      → concat cs ≡ buffer codecs.headers header ++ bytes
      → Holds db hash header cs
      → iter_content digest codecs db hash
        ≡ some (some (oks (buffer codecs.headers header) ++ oks bytes))
  unfolding iter_content
  iter_content-Holds db hash header bytes cs whole h = rw h.known (
      ap (λ l. some (some l))
        (stream-collect_chunks db (map digest cs) cs h.readable
          ∙ ap oks whole
          ∙ oks-append (buffer codecs.headers header) bytes))

  -- Of an object that the tables hold, the content is read behind the header, and the chunks are
  -- its bytes.
  pub content-Holds :
      (db : Db) (hash : Hash) (header : ObjectHeader) (bytes : List ℕ) (cs : List (List ℕ))
      → ReadsBack codecs.headers
      → length (buffer codecs.headers header) < chunk_size
      → concat cs ≡ buffer codecs.headers header ++ bytes
      → Holds db hash header cs
      → content digest codecs db hash ≡ some (some bytes)
  unfolding content iter_skip_header
  content-Holds db hash header bytes cs back small whole h =
      rw (iter_content-Holds db hash header bytes cs whole h) (
        rw (read_header-buffer codecs.headers header (oks bytes) back (omega (arith, small)))
          (rw (collect-oks bytes) refl))

  -- Building an object from bytes that are read without an error ends with a new object: it is never
  -- out of fuel, panics or fails, if headers and metadata are read back and the written header is
  -- shorter than a chunk. From the tables behind it, either the same bytes are read back as the
  -- object's content, and its chunks are the written header and the content in order and have the
  -- object's hash as the root of their Merkle tree, or two different texts with one digest are found.
  pub content-build :
      (db : Db) (header : ObjectHeader) (bookmark : Bool) (clock : Clock) (bytes : List ℕ)
      → ReadsBack codecs.headers
      → ReadsBack codecs.metadata
      → length (buffer codecs.headers header) < chunk_size
      → (after : Db) × (hash : Hash) × (build digest codecs db header bookmark clock (oks bytes)
          ≡ stored after hash)
        × (((content digest codecs after hash ≡ some (some bytes))
              × (cs : List (List ℕ)) × (chunks digest codecs after hash ≡ some (some cs))
              × (concat cs ≡ buffer codecs.headers header ++ bytes)
              × (root (from_leaves digest (map digest cs)) ≡ some hash))
            ⊎ Collision digest)
  unfolding chunks
  content-build db header bookmark clock bytes back_header back small =
      let (after, hash, ends, holds) = build-Stores db header bookmark clock bytes small back in
      let c = cut_of header bytes small in
      (
        after,
        hash,
        ends,
        elim holds [
          | inl h ↦ inl (
            content-Holds after hash header bytes (c.first ∷ c.others) back_header small c.whole h,
            c.first ∷ c.others,
            rw h.known (rw h.readable refl),
            c.whole,
            h.rooted,
          )
          | inr collision ↦ inr collision
        ],
      )

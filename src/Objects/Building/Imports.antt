-- ===== src/Objects/Building/Imports.antt =====
-- Importing the bytes of an object is the same as building it.
use samizdat.Prelude.{
  ℕ, suc, ◌+◌, ◌≤◌, ◌<◌, ltb, ◌≡◌, refl, ap, sym, ◌∙◌, Bool, List, [], ◌++◌, Option, none, some,
  arith, length, length-append, take, take-append, if◌then◌else◌,
}
use samizdat.Hash.{Hash}
use samizdat.Codec.{ReadsBack}
use samizdat.Objects.Header.{chunk_size, ObjectHeader, buffer}
use samizdat.Objects.Header.Escaping.{oks, length-oks, oks-append, read_header-buffer}
use samizdat.Objects.Building.{
  ObjectCodecs, Clock, Filled, fill, Progress, Chunking, chunked, add_chunk, build_round,
  build_loop, import_header, import_round, import_loop, header_of, start, finish, build, import,
  out_of_fuel, broken, failed, Ending, stored, import_chunks, finish_as, import_as,
}
use samizdat.Objects.Building.Chunks.{
  fill-FilledBy, fill-FilledFrom, fill-append, import_loop-build_loop, build_loop_fuel,
}
use samizdat.Database.{Db}

two_more : (n : ℕ) → 2 + n ≡ suc (1 + n)
two_more n = omega arith

abbrev with_pushed : Filled → ℕ → Option Filled
with_pushed f n = some (record { filled = f.filled; pushed = n; source = f.source })

module _ (digest : List ℕ → Hash) (codecs : ObjectCodecs) where
  abbrev next_import : ℕ → List (Option ℕ) → Progress → Chunking
  next_import fuel rest p = import_loop digest codecs chunk_size fuel rest p

  abbrev next_build : ℕ → List (Option ℕ) → Progress → Chunking
  next_build fuel rest p = build_loop digest codecs chunk_size fuel [] rest p

  first_header :
      (chunk : List ℕ) (header : ObjectHeader) (got : List ℕ)
      → ReadsBack codecs.headers
      → length (buffer codecs.headers header) ≤ chunk_size
      → chunk ≡ buffer codecs.headers header ++ got
      → header_of digest codecs none chunk ≡ some header
  first_header chunk header got back small e = rw e (
      rw (oks-append (buffer codecs.headers header) got)
        (rw (read_header-buffer codecs.headers header (oks got) back small) refl))

  -- The first round of the import, which reads the header from the chunk, and of the build.
  first_round :
      (fuel more : ℕ) (db : Db) (header : ObjectHeader) (src : List ℕ)
      → ReadsBack codecs.headers
      → length (buffer codecs.headers header) < chunk_size
      → length src < fuel
      → length src < more
      → import_loop digest codecs chunk_size
          (suc fuel)
          (oks (buffer codecs.headers header ++ src))
          (start digest codecs db none)
        ≡ build_loop digest codecs chunk_size
            (suc more)
            (buffer codecs.headers header)
            (oks src)
            (start digest codecs db (some header))
  unfolding import_loop build_loop
  first_round fuel more db header src back small hf hm =
      let written = buffer codecs.headers header in
      let a = fill-FilledFrom chunk_size written src in
      let by = fill-FilledBy chunk_size written (oks src) a.f a.runs in
      let limit = chunk_size in
      let after =
        add_chunk digest codecs (start digest codecs db none) a.f.filled (length a.f.filled)
          (some header) in
      let whole : Filled = record {
        filled = a.f.filled;
        pushed = length a.f.filled;
        source = a.f.source;
      } in
      let first : fill limit [] (oks (written ++ src)) ≡ some whole =
        ap (fill limit []) (oks-append written src)
        ∙ fill-append limit [] written (oks src) a.f small a.runs
        ∙ ap (with_pushed a.f) by.counted in
      let rest : length a.f.source ≤ length src = omega (arith, by.taken, length-oks src) in
      ap (import_round digest codecs limit (start digest codecs db none) (next_import fuel)) first
      ∙ ap
          (import_header digest codecs limit (start digest codecs db none) (next_import fuel) whole)
          (first_header a.f.filled header a.got back (omega arith) a.filled)
      ∙ ap (λ m. if ltb (length a.f.filled) limit then chunked after else m)
          (import_loop-build_loop digest codecs limit (omega arith) fuel a.f.source after header
              refl
            ∙ build_loop_fuel digest codecs limit (omega arith) fuel more a.f.source after
                (omega arith) (omega arith))
      ∙ sym (
          ap
            (build_round digest codecs limit (start digest codecs db (some header))
              (next_build more))
            a.runs)

  -- If a header is read back and its written form is shorter than a chunk, then importing as many bytes
  -- as the object has, from a source that starts with the written header and the content, ends exactly
  -- as building the object from the header and the content: with the same hash and the same tables.
  pub import-build :
      (db : Db) (header : ObjectHeader) (bookmark : Bool) (clock : Clock) (content : List ℕ)
      (behind : List (Option ℕ))
      → ReadsBack codecs.headers
      → length (buffer codecs.headers header) < chunk_size
      → import digest codecs db
          (length (buffer codecs.headers header ++ content))
          bookmark
          clock
          (oks (buffer codecs.headers header ++ content) ++ behind)
        ≡ build digest codecs db header bookmark clock (oks content)
  unfolding import build
  import-build db header bookmark clock content behind back small =
      let written = buffer codecs.headers header in
      let whole = oks (written ++ content) in
      let limited : take (length (written ++ content)) (whole ++ behind) ≡ whole =
        ap (λ n. take n (whole ++ behind)) (sym (length-oks (written ++ content)))
        ∙ take-append whole behind in
      let long = length-oks (written ++ content) ∙ length-append written content in
      ap
        (λ l.
          finish digest codecs bookmark clock
            (import_loop digest codecs chunk_size (2 + length l) l (start digest codecs db none)))
        limited
      ∙ ap
          (λ n.
            finish digest codecs bookmark clock
              (import_loop digest codecs chunk_size n whole (start digest codecs db none)))
          (two_more (length whole))
      ∙ ap (finish digest codecs bookmark clock) (
          first_round (1 + length whole) (1 + length (oks content)) db header content back small
            (omega (arith, long)) (omega (arith, length-oks content)))
      ∙ ap
          (λ n. finish digest codecs bookmark clock (
            build_loop digest codecs chunk_size n written (oks content)
              (start digest codecs db (some header))))
          (sym (two_more (length (oks content))))

  finish_as-stored :
      (failure : Db → Ending) (bookmark : Bool) (clock : Clock) (c : Chunking) (after : Db)
      (hash : Hash)
      → finish digest codecs bookmark clock c ≡ stored after hash
      → finish_as digest codecs failure bookmark clock c ≡ stored after hash
  finish_as-stored failure bookmark clock out_of_fuel after hash h = h
  finish_as-stored failure bookmark clock (broken db) after hash h = absurd (cc h)
  finish_as-stored failure bookmark clock (failed db) after hash h = h
  finish_as-stored failure bookmark clock (chunked p) after hash h = h

  -- An import that ends with an object does not depend on how its source might fail.
  pub import_as-stored :
      (failure : Db → Ending) (db : Db) (size : ℕ) (bookmark : Bool) (clock : Clock)
      (source : List (Option ℕ)) (after : Db) (hash : Hash)
      → import digest codecs db size bookmark clock source ≡ stored after hash
      → import_as digest codecs failure db size bookmark clock source ≡ stored after hash
  unfolding import import_as
  import_as-stored failure db size bookmark clock source after hash h =
      finish_as-stored failure bookmark clock (import_chunks digest codecs db size source) after
        hash h

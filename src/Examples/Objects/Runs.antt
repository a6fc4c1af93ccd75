-- ===== src/Examples/Objects/Runs.antt =====
-- Objects that are built, imported, read and dropped.
use samizdat.Prelude.{ℕ, ◌≡◌, ◌⊎◌, refl, true, List, [], ◌∷◌, ◌++◌, none, some, arith, length, map}
use samizdat.Hash.{Hash, hash_eq}
use samizdat.Merkle.{from_leaves, root}
use samizdat.Patricia.Proof.Binding.{Collision}
use samizdat.Database.{Db, put_cf, object_metadata, object_chunks}
use samizdat.Objects.Header.{buffer, escape}
use samizdat.Objects.Header.Escaping.{oks}
use samizdat.Objects.Building.{ObjectMetadata, stored, import, build}
use samizdat.Objects.Building.Cuts.{concat}
use samizdat.Objects.Building.Imports.{import-build}
use samizdat.Objects.Reading.{metadata, content, chunks, drop_if_exists}
use samizdat.Objects.Reading.Built.{content-build}
use samizdat.Objects.Reading.Dropping.{chunks-drop_if_exists}
use samizdat.Examples.{key_of, toy}
use samizdat.Examples.Objects.{
  formats, empty_db, plain, noon, metadata_codec, header_codec-ReadsBack, metadata_codec-ReadsBack,
}

abbrev written : List ℕ
written = buffer formats.headers plain

import-build_example :
    import toy formats empty_db
      (length (written ++ 5 ∷ 0 ∷ []))
      true
      noon
      (oks (written ++ 5 ∷ 0 ∷ []) ++ some 8 ∷ none ∷ [])
    ≡ build toy formats empty_db plain true noon (oks (5 ∷ 0 ∷ []))
unfolding escape
import-build_example =
    import-build toy formats empty_db plain true noon (5 ∷ 0 ∷ []) (some 8 ∷ none ∷ [])
      header_codec-ReadsBack (omega arith)

content-build_example :
    (after : Db) × (hash : Hash) × (build toy formats empty_db plain true noon (oks (5 ∷ 0 ∷ []))
      ≡ stored after hash)
    × (((content toy formats after hash ≡ some (some (5 ∷ 0 ∷ [])))
          × (cs : List (List ℕ)) × (chunks toy formats after hash ≡ some (some cs))
          × (concat cs ≡ buffer formats.headers plain ++ 5 ∷ 0 ∷ [])
          × (root (from_leaves toy (map toy cs)) ≡ some hash))
        ⊎ Collision toy)
unfolding escape
content-build_example =
    content-build toy formats empty_db plain true noon (5 ∷ 0 ∷ []) header_codec-ReadsBack
      metadata_codec-ReadsBack (omega arith)

abbrev two_chunks : Db
two_chunks =
    put_cf (put_cf empty_db object_chunks (key_of 1) (7 ∷ 8 ∷ [])) object_chunks (key_of 2) []

-- Two objects that have the chunk of the key 1 in common.
abbrev of_chunks : List Hash → ObjectMetadata
of_chunks keys = record { hashes = keys; header = plain; content_size = 2; received_at = 12 }

abbrev sharing : Db
sharing =
    put_cf
      (put_cf two_chunks object_metadata (key_of 4)
        (metadata_codec.serialize (of_chunks (key_of 1 ∷ []))))
      object_metadata (key_of 5) (metadata_codec.serialize (of_chunks (key_of 2 ∷ key_of 1 ∷ [])))

chunks-drop_if_exists_example :
    (after : Db) × (drop_if_exists toy formats sharing (key_of 4) ≡ some after)
    × (metadata toy formats after (key_of 5) ≡ some (some (of_chunks (key_of 2 ∷ key_of 1 ∷ []))))
    × (chunks toy formats after (key_of 5) ≡ none)
unfolding metadata hash_eq
chunks-drop_if_exists_example =
    chunks-drop_if_exists toy formats sharing (key_of 4) (key_of 5) (of_chunks (key_of 1 ∷ []))
      (of_chunks (key_of 2 ∷ key_of 1 ∷ [])) (key_of 1) refl refl refl refl refl

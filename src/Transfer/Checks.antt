-- ===== src/Transfer/Checks.antt =====
-- What a receiver accepts, whatever it is sent.
use samizdat.Prelude.{
  ℕ, ◌*◌, ◌≤◌, ◌==◌, ==_iff, ltb, ◌≡◌, refl, ap, sym, ◌∙◌, List, Option, none, some, arith,
  Bool-cases, inl, inr,
}
use samizdat.Hash.{Hash, hash_eq, hash_eq_iff}
use samizdat.Cipher.{Aead}
use samizdat.Database.{Db}
use samizdat.Objects.Building.{
  ObjectMetadata, ObjectCodecs, Clock, Ending, unfinished, panicked, refused, stored,
}
use samizdat.Objects.Reading.{metadata}
use samizdat.Transfer.{
  ObjectMessage, Brotli, MessageCodecs, check_metadata, check_import, recv_data, recv_from,
  recv_object,
}

module _ (digest : List ℕ → Hash) (codecs : ObjectCodecs) (formats : MessageCodecs) (aead : Aead)
    (brotli : Brotli) where
  -- The object has the hash that was asked for, and the size that was announced.
  abbrev pub Accepted : ObjectMessage → Hash → Db → Hash → Type 0
  Accepted header hash after object =
      (object ≡ hash)
      × (m : ObjectMetadata) × (metadata digest codecs after object ≡ some (some m))
      × (m.content_size ≡ header.content_size)

  check_metadata_inv :
      (header : ObjectMessage) (hash : Hash) (db : Db) (object : Hash)
      (found : Option (Option ObjectMetadata)) (after : Db) (result : Hash)
      → metadata digest codecs db object ≡ found
      → check_metadata digest codecs formats aead brotli header hash db object found
        ≡ stored after result
      → Accepted header hash after result
  check_metadata_inv header hash db object none after result known e = absurd (cc (e))
  check_metadata_inv header hash db object (some none) after result known e = absurd (cc (e))
  check_metadata_inv header hash db object (some (some m)) after result known e =
      elim (Bool-cases (m.content_size == header.content_size)) [
        | inl sized ↦ elim (Bool-cases (hash_eq object hash)) [
          | inl same ↦
              let done : stored db object ≡ stored after result = rw sized at (rw same at e) in
              let here : db ≡ after = cc (done) in
              let it : object ≡ result = cc (done) in
              (
                sym it ∙ (hash_eq_iff object hash).0 same,
                m,
                (λ i. metadata digest codecs (sym here i) (sym it i)) ∙ known,
                (==_iff _ _).0 sized,
              )
          | inr differ ↦ absurd (cc (rw sized at (rw differ at e)))
        ]
        | inr wrong ↦ absurd (cc (rw wrong at e))
      ]

  check_import_inv :
      (header : ObjectMessage) (hash : Hash) (ending : Ending) (after : Db) (result : Hash)
      → check_import digest codecs formats aead brotli header hash ending ≡ stored after result
      → Accepted header hash after result
  check_import_inv header hash unfinished after result e = absurd (cc (e))
  check_import_inv header hash panicked after result e = absurd (cc (e))
  check_import_inv header hash (refused db) after result e = absurd (cc (e))
  check_import_inv header hash (stored db object) after result e =
      check_metadata_inv header hash db object (metadata digest codecs db object) after result refl
        e

  pub recv_data_inv :
      (db : Db) (max_content_size : ℕ) (clock : Clock) (header : ObjectMessage)
      (messages : List (List ℕ)) (hash : Hash) (after : Db) (result : Hash)
      → recv_data digest codecs formats aead brotli db max_content_size clock header messages hash
        ≡ stored after result
      → Accepted header hash after result × (header.content_size ≤ max_content_size * 1000000)
  unfolding recv_data
  recv_data_inv db max_content_size clock header messages hash after result e =
      elim (Bool-cases (ltb (max_content_size * 1000000) header.content_size)) [
        | inl over ↦ absurd (cc (rw over at e))
        | inr within ↦
            (check_import_inv header hash _ after result (rw within at e), ground (arith, within))
      ]

  recv_from_inv :
      (db : Db) (max_content_size : ℕ) (clock : Clock) (hash : Hash)
      (o : Option (ObjectMessage × List (List ℕ))) (after : Db) (result : Hash)
      → recv_from digest codecs formats aead brotli db max_content_size clock hash o
        ≡ stored after result
      → (result ≡ hash)
        × (m : ObjectMetadata) × (metadata digest codecs after hash ≡ some (some m))
        × (m.content_size ≤ max_content_size * 1000000)
  recv_from_inv db max_content_size clock hash none after result e = absurd (cc (e))
  recv_from_inv db max_content_size clock hash (some (header, rest)) after result e =
      let ((same, m, known, sized), small) =
        recv_data_inv db max_content_size clock header rest hash after result e in
      (same, m, ap (metadata digest codecs after) (sym same) ∙ known, omega (arith, sized, small))

  -- Whatever messages a peer sends, if receiving ends with an object, then its hash is the one that was
  -- asked for, the tables have its metadata, and its size is within the limit of the receiver.
  pub recv_object-stored :
      (db : Db) (max_content_size : ℕ) (clock : Clock) (messages : List (List ℕ)) (hash : Hash)
      (after : Db) (result : Hash)
      → recv_object digest codecs formats aead brotli db max_content_size clock messages hash
        ≡ stored after result
      → (result ≡ hash)
        × (m : ObjectMetadata) × (metadata digest codecs after hash ≡ some (some m))
        × (m.content_size ≤ max_content_size * 1000000)
  unfolding recv_object
  recv_object-stored db max_content_size clock messages hash after result e =
      recv_from_inv db max_content_size clock hash _ after result e

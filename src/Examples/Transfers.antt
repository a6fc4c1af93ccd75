-- ===== src/Examples/Transfers.antt =====
-- An object that is sent, and messages that are received.
use samizdat.Prelude.{
  ℕ, ◌*◌, ◌≤◌, ◌≡◌, ◌⊎◌, refl, true, false, List, [], ◌∷◌, ◌++◌, Option, none, some, arith, length,
}
use samizdat.Hash.{Hash, hash_eq}
use samizdat.Codec.{ReadsBack}
use samizdat.Cipher.{encrypt, decrypt, encrypt_opaque, decrypt_with}
use samizdat.Patricia.Proof.Binding.{Collision}
use samizdat.Database.{Db}
use samizdat.Objects.Header.{escape, buffer, read_loop, read_header}
use samizdat.Objects.Header.Escaping.{oks}
use samizdat.Objects.Building.{
  ObjectMetadata, Ending, panicked, refused, stored, fill, import_loop, import, import_as, build,
}
use samizdat.Objects.Reading.{metadata, content}
use samizdat.Transfer.{
  ObjectMessage, Brotli, MessageCodecs, recv_message, content_stream, recv_data, send_object,
  recv_object,
}
use samizdat.Transfer.Honest.{IsBrotli, Fits}
use samizdat.Transfer.Delivery.{recv_object-send_object}
use samizdat.Transfer.Checks.{recv_object-stored}
use samizdat.Merkle.{last_level, from_leaves, successors, iterate_level, root, hashes}
use samizdat.Examples.{key_of, toy}
use samizdat.Examples.Riddles.{tagged, tagged-IsCipher}
use samizdat.Examples.Objects.{
  formats, empty_db, plain, noon, header_codec-ReadsBack, metadata_codec-ReadsBack,
  statistics_codec-ReadsBack,
}

abbrev pub uncompressed : Brotli
uncompressed = record { compress = λ buf. buf; decompress = λ buf. (buf, true) }

pub uncompressed-IsBrotli : IsBrotli uncompressed
uncompressed-IsBrotli = record { decompresses = λ buf. refl }

abbrev read_size : List ℕ → Option ObjectMessage
read_size [] = none
read_size (size ∷ nonce) = some (record { nonce = nonce; content_size = size })

abbrev pub messages : MessageCodecs
messages = record {
  nonces = record {
    serialize = λ m. m.nonce;
    deserialize = λ bytes. some (record { nonce = bytes });
  };
  objects = record { serialize = λ m. m.content_size ∷ m.nonce; deserialize = read_size };
}

pub nonces-ReadsBack : ReadsBack messages.nonces
nonces-ReadsBack = record { round_trip = λ m. refl }

pub sizes-ReadsBack : ReadsBack messages.objects
sizes-ReadsBack = record { round_trip = λ m. refl }

pub messages-Fits :
    Fits messages tagged uncompressed
      (key_of 3)
      (key_of 4)
      (length (buffer formats.headers plain ++ 5 ∷ 0 ∷ []))
unfolding encrypt encrypt_opaque
messages-Fits = record {
  nonce_fits = λ c. omega arith;
  size_fits = λ c. omega arith;
  chunk_fits = λ c chunk short. omega (arith, short);
}

recv_object-send_object_example :
    (sender_db : Db) × (hash : Hash) × (build toy formats empty_db plain true noon
        (oks (5 ∷ 0 ∷ []))
      ≡ stored sender_db hash)
    × (((after : Db) × (recv_object toy formats messages tagged uncompressed empty_db 1 noon
              (send_object toy formats messages tagged uncompressed sender_db hash 20
                (key_of 3)
                (key_of 4)).messages
              hash
            ≡ stored after hash)
          × (content toy formats after hash ≡ some (some (5 ∷ 0 ∷ []))))
        ⊎ Collision toy)
unfolding escape
recv_object-send_object_example =
    recv_object-send_object toy formats messages tagged uncompressed empty_db empty_db plain true
      noon noon (5 ∷ 0 ∷ []) 20 1 (key_of 3) (key_of 4) header_codec-ReadsBack
      metadata_codec-ReadsBack statistics_codec-ReadsBack nonces-ReadsBack sizes-ReadsBack
      tagged-IsCipher uncompressed-IsBrotli messages-Fits (omega arith) (omega arith)

-- An object of one chunk, and what a peer sends of it.
abbrev pub chunk : List ℕ
chunk = 0 ∷ 0 ∷ 0 ∷ 0 ∷ 9 ∷ 0 ∷ 1 ∷ 5 ∷ []

abbrev pub sent : List (List ℕ)
sent = (32 ∷ key_of 3) ∷ (32 ∷ 8 ∷ key_of 4) ∷ (32 ∷ chunk) ∷ []

abbrev pub ending : Ending
ending = recv_object toy formats messages tagged uncompressed empty_db 1 noon sent (toy chunk)

abbrev pub tables : Ending → Db
tables (stored db hash) = db
tables (refused db) = db
tables _ = empty_db

abbrev undecodable : Brotli
undecodable = record { compress = λ buf. buf; decompress = λ buf. ([], false) }

-- A chunk that cannot be decompressed is a panic of the receiver.
undecodable_panics :
    recv_object toy formats messages tagged undecodable empty_db 1 noon sent (toy chunk) ≡ panicked
unfolding recv_object recv_data recv_message content_stream decrypt decrypt_with import_as
    import_loop fill
undecodable_panics = refl

recv_object-stored_example :
    (toy chunk ≡ toy chunk)
    × (m : ObjectMetadata) × (metadata toy formats (tables ending) (toy chunk) ≡ some (some m))
    × (m.content_size ≤ 1 * 1000000)
unfolding recv_object recv_data recv_message content_stream decrypt decrypt_with import import_as
    import_loop fill read_header read_loop from_leaves successors iterate_level root hashes
    last_level metadata hash_eq
recv_object-stored_example =
    recv_object-stored toy formats messages tagged uncompressed empty_db 1 noon sent (toy chunk)
      (tables ending) (toy chunk) refl

-- ===== src/Examples/Queries.antt =====
-- Queries that succeed, and editions and identities that are picked.
use samizdat.Prelude.{ℕ, ◌≡◌, ◌⊎◌, refl, true, List, [], ◌∷◌, ◌++◌, none, some, arith}
use samizdat.Hash.{Hash, hash_eq}
use samizdat.Codec.{Codec}
use samizdat.Cipher.{decrypt, decrypt_with}
use samizdat.Patricia.Proof.Binding.{Collision}
use samizdat.Collection.Items.{CollectionItem}
use samizdat.Database.{Db}
use samizdat.Objects.Header.{read_loop, read_header, escape}
use samizdat.Objects.Header.Escaping.{oks}
use samizdat.Objects.Building.{
  Ending, stored, fill, build_loop, build, import_loop, import, import_as,
}
use samizdat.Objects.Reading.{metadata, content}
use samizdat.Merkle.{last_level, from_leaves, successors, iterate_level, root, hashes}
use samizdat.Transfer.{recv_message, content_stream, recv_data, recv_object, send_object}
use samizdat.Transfer.Items.{ItemMessage}
use samizdat.Rpc.{object_kind, resolved}
use samizdat.HubConnection.{query_found, Attempt, connected, query_loop, query_hub}
use samizdat.HubConnection.Queries.{Received, query_hub-Received, query_loop-delivers}
use samizdat.Examples.{key_of, toy}
use samizdat.Examples.Riddles.{tagged, tagged-IsCipher}
use samizdat.Examples.Objects.{
  formats, empty_db, plain, noon, header_codec-ReadsBack, metadata_codec-ReadsBack,
  statistics_codec-ReadsBack,
}
use samizdat.Examples.Transfers.{
  uncompressed, uncompressed-IsBrotli, messages, nonces-ReadsBack, sizes-ReadsBack, messages-Fits,
  chunk, sent, tables, ending,
}

abbrev no_items : Codec CollectionItem
no_items = record { serialize = λ item. item.name; deserialize = λ bytes. none }

abbrev no_messages : Codec ItemMessage
no_messages = record { serialize = λ m. m.item.name; deserialize = λ bytes. none }

-- The first candidate sends something else.
abbrev candidates : ℕ → ℕ → List Attempt
candidates channel id = connected noon ((1 ∷ []) ∷ []) ∷ connected noon sent ∷ []

query_hub-Received_example :
    Received toy formats messages tagged uncompressed no_items no_messages 1
      (toy chunk)
      object_kind
      (tables ending)
      (toy chunk)
unfolding query_hub query_loop recv_object recv_data recv_message content_stream decrypt
    decrypt_with import import_as import_loop fill read_header read_loop from_leaves successors
    iterate_level root hashes last_level metadata hash_eq
query_hub-Received_example =
    query_hub-Received toy formats messages tagged uncompressed no_items no_messages 1 (toy chunk)
      object_kind candidates empty_db (some (resolved 5 6)) (tables ending) (toy chunk) refl

abbrev made : Ending
made = build toy formats empty_db plain true noon (oks (5 ∷ 0 ∷ []))

abbrev hash_of : Ending → Hash
hash_of (stored db hash) = hash
hash_of _ = []

query_loop-delivers_example :
    ((after : Db) × (query_loop toy formats messages tagged uncompressed no_items no_messages 1
          (hash_of made)
          object_kind
          ((connected noon ([] ∷ []) ∷ [])
            ++ connected noon
                (send_object toy formats messages tagged uncompressed
                  (tables made)
                  (hash_of made)
                  20
                  (key_of 3)
                  (key_of 4)).messages
              ∷ [])
          empty_db
        ≡ query_found after (hash_of made))
      × (content toy formats after (hash_of made) ≡ some (some (5 ∷ 0 ∷ []))))
    ⊎ Collision toy
unfolding build build_loop fill escape from_leaves successors iterate_level root hashes last_level
    query_loop recv_object recv_message decrypt decrypt_with
query_loop-delivers_example =
    query_loop-delivers toy formats messages tagged uncompressed no_items no_messages 1
      (hash_of made) (connected noon ([] ∷ []) ∷ []) [] empty_db empty_db empty_db (tables made)
      plain true noon noon (5 ∷ 0 ∷ []) 20 (key_of 3) (key_of 4) header_codec-ReadsBack
      metadata_codec-ReadsBack statistics_codec-ReadsBack nonces-ReadsBack sizes-ReadsBack
      tagged-IsCipher uncompressed-IsBrotli messages-Fits (omega arith) (omega arith) refl refl

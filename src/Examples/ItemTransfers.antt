-- ===== src/Examples/ItemTransfers.antt =====
-- An item of a collection that is received with its object.
use samizdat.Prelude.{ℕ, refl, List, [], ◌∷◌, some}
use samizdat.Hash.{default, hash_eq}
use samizdat.Codec.{Codec}
use samizdat.Cipher.{decrypt, decrypt_with}
use samizdat.Patricia.Segment.{bits, byte_bits}
use samizdat.Patricia.Proof.{is_in, bit_length, sum_lens, is_in_loop, is_in_segment}
use samizdat.Collection.Items.{is_valid, object, locator_hash}
use samizdat.Collection.Tables.{insert_item}
use samizdat.Objects.Header.{read_loop, read_header}
use samizdat.Objects.Building.{Ending, fill, import_loop, import, import_as}
use samizdat.Objects.Reading.{metadata}
use samizdat.Merkle.{last_level, from_leaves, successors, iterate_level, root, hashes}
use samizdat.Transfer.{recv_message, content_stream, recv_data}
use samizdat.Transfer.Items.{ItemMessage, Asked, recv_item, recv_item-Asked}
use samizdat.Examples.{key_of, constant}
use samizdat.Examples.Items.{item_with, one_item}
use samizdat.Examples.Objects.{formats, empty_db, noon}
use samizdat.Examples.Riddles.{tagged}
use samizdat.Examples.Transfers.{uncompressed, messages, chunk, tables}

-- Bytes that stand for one message only.
abbrev one_message : Codec ItemMessage
one_message = record {
  serialize = λ m. [];
  deserialize = λ bytes. some (record {
    item = item_with default;
    object_header = record { nonce = key_of 4; content_size = 8 };
  });
}

abbrev item_sent : List (List ℕ)
item_sent = (32 ∷ key_of 3) ∷ (32 ∷ []) ∷ (32 ∷ chunk) ∷ []

abbrev item_ending : Ending
item_ending =
    recv_item constant formats messages tagged uncompressed one_item one_message empty_db 1 noon
      item_sent default

recv_item-Asked_example :
    Asked constant formats messages tagged uncompressed one_item one_message default
      (tables item_ending)
      default
unfolding recv_item recv_data recv_message content_stream decrypt decrypt_with import import_as
    import_loop fill read_header read_loop from_leaves successors iterate_level root hashes
    last_level metadata hash_eq is_valid object locator_hash is_in bit_length sum_lens is_in_loop
    is_in_segment bits byte_bits insert_item
recv_item-Asked_example =
    recv_item-Asked constant formats messages tagged uncompressed one_item one_message empty_db 1
      noon item_sent default (tables item_ending) default refl

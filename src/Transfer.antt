-- ===== src/Transfer.antt =====
-- node/src/system/file_transfer/mod.rs: an object is sent over a channel, as a message with a nonce, a
-- message with its size and one message for each chunk, compressed and encrypted. A channel is the list
-- of the messages that are on their way. The crate `brotli` is a parameter.
pub mod Delivery
pub mod Honest
pub mod Items
pub mod Checks
use samizdat.Prelude.{
  ℕ, ◌+◌, ◌*◌, ◌==◌, leb, ltb, Bool, true, false, not, List, [], ◌∷◌, ◌++◌, Option, none, some,
  length, ◌>>=◌, if◌then◌else◌, map,
}
use samizdat.Hash.{Hash, hash_eq, default}
use samizdat.Codec.{Codec}
use samizdat.Cipher.{
  Aead, TransferCipher, new_cipher, encrypt, decrypt, encrypt_opaque, decrypt_with,
}
use samizdat.Database.{Db}
use samizdat.Objects.Header.{chunk_size}
use samizdat.Objects.Building.{
  ObjectMetadata, ObjectCodecs, Clock, Ending, unfinished, panicked, refused, stored, import_as,
}
use samizdat.Objects.Reading.{get_chunk, metadata, touch}

abbrev pub max_header_length : ℕ
max_header_length = 4096

abbrev pub max_stream_size : ℕ
max_stream_size = chunk_size * 2

-- `NonceMessage` and `ObjectMessage`
pub record NonceMessage : Type 0 where
  pub nonce : Hash

pub record ObjectMessage : Type 0 where
  pub nonce : Hash
  pub content_size : ℕ

-- `CompressorReader`, and `Decompressor`: the bytes that it yields, and whether it then comes to its end
-- or fails.
pub record Brotli : Type 0 where
  pub compress : List ℕ → List ℕ
  pub decompress : List ℕ → List ℕ × Bool

pub record MessageCodecs : Type 0 where
  pub nonces : Codec NonceMessage
  pub objects : Codec ObjectMessage

-- What a sender leaves: the tables, the messages that it sent, and whether it came to its end; it stops
-- at an error and at the panic of `expect`.
pub record Sent : Type 0 where
  pub db : Db
  pub messages : List (List ℕ)
  pub finished : Bool

-- `ChannelReceiver::recv`, and the error of a channel that has dried: `read_to_end` fails on a message
-- that is too long.
abbrev pub recv : ℕ → List (List ℕ) → Option (List ℕ × List (List ℕ))
recv max_len [] = none
recv max_len (message ∷ messages) =
    if leb (length message) max_len then some (message, messages) else none

-- The stream of the content: what it yields, up to a first failure, and how a call ends in which it fails.
pub record Content : Type 0 where
  pub source : List (Option ℕ)
  pub failure : Db → Ending

module _ (digest : List ℕ → Hash) (codecs : ObjectCodecs) (formats : MessageCodecs) (aead : Aead)
    (brotli : Brotli) where
  -- `Message::recv`
  unfoldable pub recv_message :
      {T : Type 0} → Codec T → TransferCipher → List (List ℕ) → Option (T × List (List ℕ))
  recv_message codec cipher messages = do
    (serialized, rest) ← recv max_header_length messages
    header ← decrypt_with aead codec serialized cipher
    some (header, rest)

  -- `NonceMessage::cipher`, of the default nonce and of one that was drawn.
  abbrev pub init_cipher : Hash → TransferCipher
  init_cipher hash = new_cipher hash default

  -- `recv_negotiate`
  abbrev pub recv_negotiate : List (List ℕ) → Hash → Option (TransferCipher × List (List ℕ))
  recv_negotiate messages hash = do
    (message, rest) ← recv_message formats.nonces (init_cipher hash) messages
    some (new_cipher hash message.nonce, rest)

  -- `send_negotiate`, the message it sends.
  abbrev pub nonce_message : Hash → Hash → List ℕ
  nonce_message hash nonce =
      encrypt_opaque aead formats.nonces (init_cipher hash) (record { nonce = nonce })

  -- The loop of `send_data` over the chunks: what it sends, and whether all chunks are there.
  abbrev pub send_chunk :
      TransferCipher → Option (List ℕ) → List (List ℕ) × Bool → List (List ℕ) × Bool
  send_chunk cipher none rest = ([], false)
  send_chunk cipher (some chunk) (messages, finished) =
      (encrypt aead cipher (brotli.compress chunk) ∷ messages, finished)

  unfoldable pub send_chunks : TransferCipher → Db → List Hash → List (List ℕ) × Bool
  send_chunks cipher db [] = ([], true)
  send_chunks cipher db (hash ∷ hashes) =
      send_chunk cipher (get_chunk db hash) (send_chunks cipher db hashes)

  -- `ObjectMessage::for_object`, of metadata that was found, and the nonce that was drawn.
  abbrev pub for_object : ObjectMetadata → Hash → ObjectMessage
  for_object m nonce = record { nonce = nonce; content_size = m.content_size }

  -- `send_data`, of metadata that was found: `chunks` goes through its hashes.
  abbrev pub send_data : ObjectMessage → Db → Hash → ObjectMetadata → List (List ℕ) × Bool
  send_data header db hash m = send_chunks (new_cipher hash header.nonce) db m.hashes

  abbrev pub with_data : Db → List ℕ → List ℕ → List (List ℕ) × Bool → Sent
  with_data db first second (data_messages, finished) = record {
    db = db;
    messages = first ∷ second ∷ data_messages;
    finished = finished;
  }

  -- `send_object` behind the touch, with the two nonces that are drawn.
  abbrev pub send_touched : Db → Hash → Hash → Hash → Option (Option ObjectMetadata) → Sent
  send_touched db hash nonce data_nonce (some (some m)) =
      let header = for_object m data_nonce in
      with_data db (nonce_message hash nonce)
        (encrypt_opaque aead formats.objects (new_cipher hash nonce) header)
        (send_data header db hash m)
  send_touched db hash nonce data_nonce (some none) = record {
    db = db;
    messages = [];
    finished = false;
  }
  send_touched db hash nonce data_nonce none = record { db = db; messages = []; finished = false }

  abbrev pub send_after : Db → Hash → Hash → Hash → Option Db → Sent
  send_after db hash nonce data_nonce none = record { db = db; messages = []; finished = false }
  send_after db hash nonce data_nonce (some after) =
      send_touched after hash nonce data_nonce (metadata digest codecs after hash)

  unfoldable pub send_object : Db → Hash → ℕ → Hash → Hash → Sent
  send_object db hash now nonce data_nonce =
      send_after db hash nonce data_nonce (touch digest codecs db hash now)

  -- The bytes of a message that was decompressed, before those of the messages behind it. The code
  -- panics where the decompressor fails.
  abbrev pub then_bytes : List ℕ × Bool → Content → Content
  then_bytes (bytes, true) rest = record rest { source = map some bytes ++ rest.source }
  then_bytes (bytes, false) rest = record {
    source = map some bytes ++ none ∷ [];
    failure = λ db. panicked;
  }

  -- A message that is too long is an error.
  abbrev pub received : TransferCipher → List ℕ → Content → Content
  received cipher message rest =
      if leb (length message) max_stream_size
      then then_bytes (brotli.decompress (decrypt aead cipher message)) rest
      else record { source = none ∷ []; failure = refused }

  -- `content_stream`
  unfoldable pub content_stream : TransferCipher → List (List ℕ) → Content
  content_stream cipher [] = record { source = []; failure = refused }
  content_stream cipher (message ∷ messages) =
      received cipher message (content_stream cipher messages)

  -- The checks behind the import.
  abbrev pub check_metadata :
      ObjectMessage → Hash → Db → Hash → Option (Option ObjectMetadata) → Ending
  check_metadata header hash db object none = refused db
  check_metadata header hash db object (some none) = panicked
  check_metadata header hash db object (some (some m)) =
      if not (m.content_size == header.content_size)
      then refused db
      else if not (hash_eq object hash)
      then refused db
      else stored db object

  abbrev pub check_import : ObjectMessage → Hash → Ending → Ending
  check_import header hash unfinished = unfinished
  check_import header hash panicked = panicked
  check_import header hash (refused db) = refused db
  check_import header hash (stored db object) =
      check_metadata header hash db object (metadata digest codecs db object)

  -- `recv_data`, with `cli().max_content_size` in megabytes.
  unfoldable pub recv_data : Db → ℕ → Clock → ObjectMessage → List (List ℕ) → Hash → Ending
  recv_data db max_content_size clock header messages hash =
      let cipher = new_cipher hash header.nonce in
      let stream = content_stream cipher messages in
      let imported =
        import_as digest codecs stream.failure db header.content_size false clock stream.source in
      if ltb (max_content_size * 1000000) header.content_size
      then refused db
      else check_import header hash imported

  abbrev pub recv_from : Db → ℕ → Clock → Hash → Option (ObjectMessage × List (List ℕ)) → Ending
  recv_from db max_content_size clock hash none = refused db
  recv_from db max_content_size clock hash (some (header, rest)) =
      recv_data db max_content_size clock header rest hash

  -- `recv_object`
  unfoldable pub recv_object : Db → ℕ → Clock → List (List ℕ) → Hash → Ending
  recv_object db max_content_size clock messages hash =
      recv_from db max_content_size clock hash
        (do (cipher, rest) ← recv_negotiate messages hash; recv_message formats.objects cipher rest)

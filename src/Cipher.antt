-- ===== src/Cipher.antt =====
-- common/src/cipher.rs: `TransferCipher` and `OpaqueEncrypted`. The cipher of the crate `aes_gcm_siv` and
-- the serialisation of `bincode` are parameters.
pub mod Opening
use samizdat.Prelude.{ℕ, ◌-◌, List, ◌++◌, Option, none, some, length, take, replicate}
use samizdat.Hash.{Hash}
use samizdat.Codec.{Codec}

-- `Aes256GcmSiv`: with a key and a nonce, on a buffer; `none` is an error, which leaves the buffer.
pub record Aead : Type 0 where
  pub encrypt_in_place : List ℕ → List ℕ → List ℕ → Option (List ℕ)
  pub decrypt_in_place : List ℕ → List ℕ → List ℕ → Option (List ℕ)

pub record TransferCipher : Type 0 where
  pub nonce : List ℕ
  pub key : List ℕ

-- The key is the hash, filled up with zeros to 32 bytes; the nonce is cut to 12 bytes.
abbrev pub extend : Hash → List ℕ
extend a = a ++ replicate (32 - length a) 0

abbrev pub new_cipher : Hash → Hash → TransferCipher
new_cipher content_hash nonce = record { nonce = take 12 nonce; key = extend content_hash }

-- `.ok()`: an error is ignored.
abbrev pub or_unchanged : List ℕ → Option (List ℕ) → List ℕ
or_unchanged buf none = buf
or_unchanged buf (some changed) = changed

module _ (aead : Aead) where
  unfoldable pub encrypt : TransferCipher → List ℕ → List ℕ
  encrypt c buf = or_unchanged buf (aead.encrypt_in_place c.key c.nonce buf)

  unfoldable pub decrypt : TransferCipher → List ℕ → List ℕ
  decrypt c buf = or_unchanged buf (aead.decrypt_in_place c.key c.nonce buf)

  -- `OpaqueEncrypted::new`, which `encrypt_opaque` calls.
  unfoldable pub encrypt_opaque : {T : Type 0} → Codec T → TransferCipher → T → List ℕ
  encrypt_opaque codec c message = encrypt c (codec.serialize message)

  -- `OpaqueEncrypted::decrypt_with`
  unfoldable pub decrypt_with : {T : Type 0} → Codec T → List ℕ → TransferCipher → Option T
  decrypt_with codec bytes c = codec.deserialize (decrypt c bytes)

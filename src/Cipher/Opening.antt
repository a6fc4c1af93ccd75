-- ===== src/Cipher/Opening.antt =====
-- What was encrypted is decrypted again.
use samizdat.Prelude.{ℕ, ◌≡◌, ap, ◌∙◌, List, some}
use samizdat.Codec.{Codec, ReadsBack}
use samizdat.Cipher.{
  Aead, TransferCipher, or_unchanged, encrypt, decrypt, encrypt_opaque, decrypt_with,
}

-- What was encrypted is decrypted with the same key and nonce.
pub record IsCipher (aead : Aead) : Type 0 where
  pub encrypted : List ℕ → List ℕ → List ℕ → List ℕ
  pub encrypts :
      (key nonce buf : List ℕ)
      → aead.encrypt_in_place key nonce buf ≡ some (encrypted key nonce buf)
  pub decrypts :
      (key nonce buf : List ℕ)
      → aead.decrypt_in_place key nonce (encrypted key nonce buf) ≡ some buf

pub decrypt-encrypt :
    (aead : Aead) (c : TransferCipher) (buf : List ℕ)
    → IsCipher aead
    → decrypt aead c (encrypt aead c buf) ≡ buf
unfolding encrypt decrypt
decrypt-encrypt aead c buf cipher =
    ap
      (λ o.
        or_unchanged (or_unchanged buf o)
          (aead.decrypt_in_place c.key c.nonce (or_unchanged buf o)))
      (cipher.encrypts c.key c.nonce buf)
    ∙ ap (or_unchanged (cipher.encrypted c.key c.nonce buf)) (cipher.decrypts c.key c.nonce buf)

pub decrypt_with-encrypt_opaque :
    {T : Type 0} (aead : Aead) (codec : Codec T) (c : TransferCipher) (message : T)
    → IsCipher aead
    → ReadsBack codec
    → decrypt_with aead codec (encrypt_opaque aead codec c message) c ≡ some message
unfolding encrypt_opaque decrypt_with
decrypt_with-encrypt_opaque aead codec c message cipher back =
    ap codec.deserialize (decrypt-encrypt aead c (codec.serialize message) cipher)
    ∙ back.round_trip message

-- ===== src/Riddle/Solving.antt =====
-- Who solves a riddle.
use samizdat.Codec.{Codec, ReadsBack}
use samizdat.Prelude.{
  none, ◌==◌, if◌then◌else◌, ℕ, ◌≡◌, ◌⊎◌, refl, ap, true, List, some, length, inl, inr, ◌>>=◌,
}
use samizdat.Hash.{Hash, hash_eq_iff, rehash}
use samizdat.Cipher.{Aead, new_cipher}
use samizdat.Cipher.Opening.{IsCipher, decrypt_with-encrypt_opaque}
use samizdat.Riddle.{Message, new_message, new_with_nonce, resolves, riddle_for, resolve}
use samizdat.Patricia.Proof.Binding.{Collision, rehash_parts}

module _ (digest : List ℕ → Hash) where
  -- A message for a riddle is read by everyone who knows the hash that the riddle was made from.
  pub resolve-riddle_for :
      {T : Type 0} (aead : Aead) (codec : Codec (Message T)) (content_hash rand : Hash)
      (message : T)
      → IsCipher aead
      → ReadsBack codec
      → resolve digest aead codec
          (riddle_for digest aead codec (new_with_nonce digest content_hash rand) message)
          content_hash
        ≡ some message
  unfolding resolve riddle_for new_with_nonce
  resolve-riddle_for aead codec content_hash rand message cipher back =
      ap (λ o. o >>= (λ m. if m.validation == 0 then some m.payload else none))
        (decrypt_with-encrypt_opaque aead codec (new_cipher (rehash digest content_hash rand) rand)
          (new_message message) cipher back)

  -- If a hash resolves a riddle, then it is the hash that the riddle was made from, or else two texts
  -- with one digest are known. All digests have 28 bytes.
  pub resolves-new_with_nonce :
      (digest_sized : (x : List ℕ) → length (digest x) ≡ 28) (content_hash rand guess : Hash)
      → resolves digest (new_with_nonce digest content_hash rand) guess ≡ true
      → (guess ≡ content_hash) ⊎ Collision digest
  unfolding resolves new_with_nonce
  resolves-new_with_nonce digest_sized content_hash rand guess h =
      elim (rehash_parts digest digest_sized guess rand content_hash rand refl
        ((hash_eq_iff _ _).0 h)) [ inl p ↦ inl p.0 | inr c ↦ inr c ]

-- ===== src/Riddle.antt =====
-- common/src/riddles.rs: riddles for hashes, and messages that only those can read who know the hash.
pub mod Solving
use samizdat.Codec.{Codec}
use samizdat.Prelude.{ℕ, Bool, List, Option, none, some, ◌==◌, if◌then◌else◌, ◌>>=◌}
use samizdat.Hash.{Hash, hash_eq, rehash}
use samizdat.Cipher.{Aead, new_cipher, encrypt_opaque, decrypt_with}

pub record Message (T : Type 0) : Type 0 where
  pub payload : T
  -- A short which is always zero.
  pub validation : ℕ

abbrev pub new_message : {T : Type 0} → T → Message T
new_message payload = record { payload = payload; validation = 0 }

pub record Riddle : Type 0 where
  pub rand : Hash
  pub hash : Hash

pub record MessageRiddle : Type 0 where
  pub rand : Hash
  pub masked : List ℕ

module _ (digest : List ℕ → Hash) where
  -- `Riddle::new_with_nonce`, and `Riddle::new` with a random nonce.
  unfoldable pub new_with_nonce : Hash → Hash → Riddle
  new_with_nonce content_hash rand = record { rand = rand; hash = rehash digest content_hash rand }

  unfoldable pub resolves : Riddle → Hash → Bool
  resolves self hash = hash_eq (rehash digest hash self.rand) self.hash

  module _ {T : Type 0} (aead : Aead) (codec : Codec (Message T)) where
    unfoldable pub riddle_for : Riddle → T → MessageRiddle
    riddle_for self message = record {
      rand = self.rand;
      masked = encrypt_opaque aead codec (new_cipher self.hash self.rand) (new_message message);
    }

    unfoldable pub resolve : MessageRiddle → Hash → Option T
    resolve self content_hash =
        let key = rehash digest content_hash self.rand in
        decrypt_with aead codec self.masked (new_cipher key self.rand)
        >>= (λ message. if message.validation == 0 then some message.payload else none)

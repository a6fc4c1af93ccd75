-- ===== src/Examples/Riddles.antt =====
-- A riddle that is solved, and a message that is read.
use samizdat.Codec.{Codec, ReadsBack}
use samizdat.Prelude.{ℕ, ◌≡◌, refl, true, List, [], ◌∷◌, Option, none, some, length}
use samizdat.Hash.{hash_eq}
use samizdat.Cipher.{Aead}
use samizdat.Riddle.{Message, new_with_nonce, resolves}
use samizdat.Cipher.Opening.{IsCipher}
use samizdat.Examples.{key_of, constant}

-- Encryption that puts the key's length in front.
abbrev pub tagged : Aead
tagged = record {
  encrypt_in_place = λ key nonce buf. some (length key ∷ buf);
  decrypt_in_place = λ key nonce buf. elim buf [ [] ↦ none | x ∷ xs ↦ some xs ];
}

pub tagged-IsCipher : IsCipher tagged
tagged-IsCipher = record {
  encrypted = λ key nonce buf. length key ∷ buf;
  encrypts = λ key nonce buf. refl;
  decrypts = λ key nonce buf. refl;
}

abbrev read_message : List ℕ → Option (Message ℕ)
read_message (p ∷ v ∷ []) = some (record { payload = p; validation = v })
read_message _ = none

abbrev numbers : Codec (Message ℕ)
numbers = record { serialize = λ m. m.payload ∷ m.validation ∷ []; deserialize = read_message }

numbers-ReadsBack : ReadsBack numbers
numbers-ReadsBack = record { round_trip = λ m. refl }

guessed : resolves constant (new_with_nonce constant (key_of 1) (key_of 2)) (key_of 3) ≡ true
unfolding resolves new_with_nonce hash_eq
guessed = refl

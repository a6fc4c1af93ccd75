-- ===== src/Examples/Latest.antt =====
-- Editions and identities that are picked from a hub's responses.
use samizdat.Prelude.{ℕ, refl, List, [], ◌∷◌, some}
use samizdat.Hash.{hash_eq}
use samizdat.Cipher.{decrypt, decrypt_with}
use samizdat.Series.{SeriesRef, edition_is_valid}
use samizdat.Identity.{Identity, from_str, identity_is_valid}
use samizdat.Rpc.{EditionResponse, IdentityResponse}
use samizdat.HubConnection.{
  edition_time, decrypt_edition, pick_edition, identity_work, decrypt_identity, pick_identity,
}
use samizdat.HubConnection.Latest.{Sound, Covers, get_edition-latest, is_for, get_identity_at-best}
use samizdat.Examples.{key_of, toy}
use samizdat.Examples.Marks.{simple}
use samizdat.Examples.Riddles.{tagged}
use samizdat.Examples.Editions.{openly, codecs, edition_at}
use samizdat.Examples.Identities.{identity_codec, first_byte, someone, made}

abbrev response : ℕ → EditionResponse
response time = record { series = 0 ∷ time ∷ 60 ∷ []; rand = key_of 2 }

abbrev series : SeriesRef
series = record { public_key = 9 ∷ [] }

abbrev responses : List EditionResponse
responses = response 10 ∷ response 30 ∷ response 20 ∷ []

get_edition-latest_example :
    Sound
      (edition_time toy tagged openly codecs)
      (edition_is_valid openly codecs)
      (some (edition_at 30 60))
    × Covers
        (edition_time toy tagged openly codecs)
        (edition_is_valid openly codecs)
        (decrypt_edition toy tagged openly codecs series)
        (some (edition_at 30 60))
        responses
unfolding pick_edition edition_is_valid decrypt decrypt_with hash_eq
get_edition-latest_example =
    get_edition-latest toy tagged openly codecs series responses (some (edition_at 30 60)) refl

abbrev weak : Identity
weak = record made { proof = record made.proof { solution = key_of 2 } }

abbrev sealed : Identity → IdentityResponse
sealed i = record { identity = 0 ∷ identity_codec.serialize i; rand = key_of 2 }

get_identity_at-best_example :
    Sound
      (identity_work toy tagged identity_codec simple first_byte 9)
      (is_for toy tagged identity_codec simple first_byte 9 someone)
      (some made)
    × Covers
        (identity_work toy tagged identity_codec simple first_byte 9)
        (is_for toy tagged identity_codec simple first_byte 9 someone)
        (decrypt_identity toy tagged identity_codec simple first_byte 9 someone)
        (some made)
        (sealed weak ∷ sealed made ∷ [])
unfolding pick_identity identity_is_valid from_str decrypt decrypt_with hash_eq
get_identity_at-best_example =
    get_identity_at-best toy tagged identity_codec simple first_byte 9 someone
      (sealed weak ∷ sealed made ∷ []) (some made) refl

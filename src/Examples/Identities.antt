-- ===== src/Examples/Identities.antt =====
-- An identity whose proof is searched for.
use samizdat.Prelude.{ℕ, ◌≤◌, ◌≡◌, refl, ap, List, [], ◌∷◌, Option, none, some, arith, ltb}
use samizdat.Hash.{Hash}
use samizdat.Codec.{Codec, ReadsBack}
use samizdat.Database.{Db, write_batch}
use samizdat.Series.{SeriesRef}
use samizdat.Identity.{
  IdentityRef, from_str, ProofOfWork, Identity, get_identity, information_of, work_done,
  identity_is_valid, forge_loop, forge, insert_identity, created, create_identity,
}
use samizdat.Identity.Forging.{create_identity-IsValid, create_identity-ends}
use samizdat.Examples.{key_of, toy}
use samizdat.Examples.Marks.{simple}
use samizdat.Examples.Objects.{empty_db, encode_lists, decode_lists, decode_lists-encode_lists}

abbrev of_lists : List (List ℕ) → Option Identity
of_lists (handle ∷ key ∷ information ∷ solution ∷ []) = some (record {
  identity = record { handle = handle };
  series = record { public_key = key };
  proof = record { information = information; solution = solution };
})
of_lists _ = none

abbrev pub identity_codec : Codec Identity
identity_codec = record {
  serialize = λ i.
      encode_lists
        (i.identity.handle ∷ i.series.public_key ∷ i.proof.information ∷ i.proof.solution ∷ []);
  deserialize = λ bytes. of_lists (decode_lists bytes);
}

identity_codec-ReadsBack : ReadsBack identity_codec
identity_codec-ReadsBack = record {
  round_trip = λ i. ap of_lists (
      decode_lists-encode_lists
        (i.identity.handle ∷ i.series.public_key ∷ i.proof.information ∷ i.proof.solution ∷ []));
}

-- The work is the first byte of the hash that proves it.
abbrev pub first_byte : Hash → ℕ
first_byte [] = 0
first_byte (b ∷ bytes) = b

abbrev pub someone : IdentityRef
someone = record { handle = b'a' ∷ b'b' ∷ [] }

abbrev key : SeriesRef
key = record { public_key = 3 ∷ 4 ∷ [] }

abbrev proof_with : Hash → ProofOfWork
proof_with solution = record {
  information = information_of toy identity_codec simple someone key;
  solution = solution;
}

abbrev pub made : Identity
made = record { identity = someone; series = key; proof = proof_with (key_of 1) }

abbrev after : Db
after = write_batch simple empty_db (insert_identity toy identity_codec simple made [])

create_identity-IsValid_example :
    (200 ≤ work_done toy identity_codec simple first_byte 9 made.proof)
    × (9 ≤ work_done toy identity_codec simple first_byte 9 made.proof)
    × (identity_is_valid toy identity_codec simple first_byte 9 made
        ≡ ltb 9 (work_done toy identity_codec simple first_byte 9 made.proof))
    × (get_identity toy identity_codec simple after someone ≡ some (some made))
unfolding from_str create_identity forge forge_loop
create_identity-IsValid_example =
    create_identity-IsValid toy identity_codec simple first_byte 9 empty_db after someone.handle
      someone key 200 (key_of 3) (key_of 2 ∷ key_of 1 ∷ key_of 4 ∷ []) made identity_codec-ReadsBack
      refl refl

create_identity-ends_example :
    (later : Db) × (result : Identity) × (create_identity toy identity_codec simple first_byte 9
        empty_db someone key 200
        (key_of 3)
        (key_of 2 ∷ key_of 1 ∷ key_of 4 ∷ [])
      ≡ created later result)
create_identity-ends_example =
    create_identity-ends toy identity_codec simple first_byte 9 empty_db someone key 200 (key_of 3)
      (key_of 2 ∷ []) (key_of 1) (key_of 4 ∷ []) refl (omega arith)

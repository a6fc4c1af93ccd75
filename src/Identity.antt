-- ===== src/Identity.antt =====
-- node/src/models/identity.rs: identities, names that are bound to series by a proof of work; and
-- common/src/pow.rs. Work is a floating point number of which only the order matters: it is an argument,
-- of the hash that proves it, like the least work for an identity.
pub mod Search
pub mod Forging
use samizdat.Prelude.{
  ℕ, ◌==◌, ◌&&◌, ◌||◌, ltb, Bool, true, false, List, [], ◌∷◌, Option, none, some, ◌>>=◌,
  if◌then◌else◌,
}
use samizdat.Codec.{Codec}
use samizdat.Hash.{Hash, hash_eq, rehash}
use samizdat.Text.{Str}
use samizdat.Riddle.{Riddle}
use samizdat.Bookmark.{Bincode}
use samizdat.Database.{Db, Entry, put_entry, delete_entry, write_batch, identities}
use samizdat.Series.{SeriesRef}
use samizdat.Lookup.{try_hash, find_value}

pub record IdentityRef : Type 0 where
  pub handle : Str

-- `""`, `"~"`, `"."` and `".."`, and the handles that start with `_`.
abbrev pub is_bad_handle : Str → Bool
is_bad_handle [] = true
is_bad_handle (c ∷ []) = c == b'~' || (c == b'.' || c == b'_')
is_bad_handle (c ∷ d ∷ []) = (c == b'.' && d == b'.') || c == b'_'
is_bad_handle (c ∷ d ∷ e ∷ rest) = c == b'_'

-- `IdentityRef::from_str`
unfoldable pub from_str : Str → Option IdentityRef
from_str s = if is_bad_handle s then none else some (record { handle = s })

-- `.is_ok()`
abbrev pub is_parsed : Option IdentityRef → Bool
is_parsed none = false
is_parsed (some identity) = true

-- `f64::max`
abbrev pub max_of : ℕ → ℕ → ℕ
max_of a b = if ltb a b then b else a

pub record ProofOfWork : Type 0 where
  pub information : Hash
  pub solution : Hash

pub record Identity : Type 0 where
  pub identity : IdentityRef
  pub series : SeriesRef
  pub proof : ProofOfWork

module _ (digest : List ℕ → Hash) (codec : Codec Identity) (bincode : Bincode) where
  -- `IdentityRef::hash`
  abbrev pub identity_hash : IdentityRef → Hash
  identity_hash identity = digest identity.handle

  abbrev pub read_identity : Option (List ℕ) → Option (Option Identity)
  read_identity none = some none
  read_identity (some value) = do identity ← codec.deserialize value; some (some identity)

  -- `IdentityRef::get` and `Identity::get`: the outer `none` is the error of `deserialize`.
  unfoldable pub get_identity : Db → IdentityRef → Option (Option Identity)
  get_identity db identity = read_identity (db identities (identity_hash identity))

  -- `Identity::find`
  abbrev pub find_identity : Riddle → List (List ℕ × List ℕ) → Option Identity
  find_identity riddle entries = find_value digest try_hash riddle entries >>= codec.deserialize

  -- `Identity::insert` and `drop_if_exists_with`
  abbrev pub insert_identity : Identity → List Entry → List Entry
  insert_identity identity batch =
      put_entry identities (identity_hash identity.identity) (codec.serialize identity) ∷ batch

  abbrev pub drop_identity : Identity → List Entry → List Entry
  drop_identity identity batch = delete_entry identities (identity_hash identity.identity) ∷ batch

  -- What an identity's proof of work is for.
  abbrev pub information_of : IdentityRef → SeriesRef → Hash
  information_of identity series = rehash digest (identity_hash identity) (digest series.public_key)

  -- `ProofOfWork::proof_hash`
  abbrev pub proof_hash : ProofOfWork → Hash
  proof_hash proof = rehash digest proof.information proof.solution

  module _ (work : Hash → ℕ) (minimum_work_done : ℕ) where
    -- `ProofOfWork::work_done` and `Identity::work_done`
    abbrev pub work_done : ProofOfWork → ℕ
    work_done proof = work (proof_hash proof)

    -- `Identity::is_valid`
    unfoldable pub identity_is_valid : Identity → Bool
    identity_is_valid identity =
        hash_eq identity.proof.information (information_of identity.identity identity.series)
        && is_parsed (from_str identity.identity.handle)
        && ltb minimum_work_done (work_done identity.proof)

    -- The round of `forge` with the solution that is drawn.
    abbrev pub better_proof : ProofOfWork → Hash → ProofOfWork
    better_proof proof solution =
        let new_proof : ProofOfWork = record proof { solution = solution } in
        if ltb (work_done proof) (work_done new_proof) then new_proof else proof

    -- The loop of `forge`, over the solutions that are drawn; `none` has not come to its end with them.
    unfoldable pub forge_loop : ℕ → ProofOfWork → List Hash → Option ProofOfWork
    forge_loop target proof [] = if ltb (work_done proof) target then none else some proof
    forge_loop target proof (solution ∷ solutions) =
        let rest = forge_loop target (better_proof proof solution) solutions in
        if ltb (work_done proof) target then rest else some proof

    -- `Identity::forge`, with the first solution and those that are drawn after it.
    unfoldable pub forge : IdentityRef → SeriesRef → ℕ → Hash → List Hash → Option Identity
    forge identity series work_target first solutions = do
      proof ←
          forge_loop (max_of work_target minimum_work_done)
            (record { information = information_of identity series; solution = first }) solutions
      some (record { identity = identity; series = series; proof = proof })

    -- The result of `create`: the identity exists, or it was created.
    pub data Creation : Type 0 where
      already_exists unfinished : Creation
      created : Db → Identity → Creation

    abbrev pub create_forged : Db → Option Identity → Creation
    create_forged db none = unfinished
    create_forged db (some identity) =
        created (write_batch bincode db (insert_identity identity [])) identity

    -- `Identity::create`
    abbrev pub create_at :
        Db → IdentityRef → SeriesRef → ℕ → Hash → List Hash → Option (List ℕ) → Creation
    create_at db identity series work_target first solutions (some value) = already_exists
    create_at db identity series work_target first solutions none =
        create_forged db (forge identity series work_target first solutions)

    unfoldable pub create_identity : Db → IdentityRef → SeriesRef → ℕ → Hash → List Hash → Creation
    create_identity db identity series work_target first solutions =
        create_at db identity series work_target first solutions
          (db identities (identity_hash identity))

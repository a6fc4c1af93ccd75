-- ===== src/Merkle.antt =====
-- common/src/hash.rs: `MerkleTree`, `InclusionProof` and `Hash::is_proved_by`. `usize` has 64 bits.
pub mod Levels
pub mod Accepts
use Prim.Native.Nat.{bit_and}
use samizdat.Prelude.{
  ℕ, zero, suc, ◌+◌, ◌-◌, ◌*◌, ◌/◌, ◌%◌, ◌^◌, Bool, true, false, not, List, [], ◌∷◌, Option, none,
  some, ◌==◌, ltb, if◌then◌else◌, ◌>>=◌, length, get_elem?, reverse,
}
use samizdat.Hash.{Hash, default, rehash, hash_eq}

pub record InclusionProof : Type 0 where
  pub path : List Hash
  pub index : ℕ

-- The levels, the root's first.
pub record MerkleTree : Type 0 where
  pub tree : List (List Hash)

-- `tree.last()`
unfoldable pub last_level : List (List Hash) → Option (List Hash)
last_level [] = none
last_level (level ∷ []) = some level
last_level (level ∷ next ∷ levels) = last_level (next ∷ levels)

-- `hashes`, and `len` below: `none` is the panic "not empty".
unfoldable pub hashes : MerkleTree → Option (List Hash)
hashes t = last_level t.tree

unfoldable pub len : MerkleTree → Option ℕ
len t = do level ← last_level t.tree; some (length level)

-- `self.tree[0][0]`; `none` is a panic.
unfoldable pub root : MerkleTree → Option Hash
root t = do level ← get_elem? t.tree 0; get_elem? level 0

-- `level.get(sibling_index)`, or the default hash.
abbrev pub sibling : List Hash → ℕ → Hash
sibling level i = elim (get_elem? level i) [ none ↦ default | some hash ↦ hash ]

-- `level_index ^ 1`: the lowest bit flipped.
abbrev pub flip_low : ℕ → ℕ
flip_low i = if i % 2 == 0 then i + 1 else i - 1

-- The closure that is mapped over the levels, with its state `level_index`.
unfoldable pub proof_path : List (List Hash) → ℕ → List Hash
proof_path [] level_index = []
proof_path (level ∷ levels) level_index =
    sibling level (flip_low level_index) ∷ proof_path levels (level_index / 2)

-- The outer `none` is a panic, the inner one the method's `None`.
unfoldable pub proof_for : MerkleTree → ℕ → Option (Option InclusionProof)
proof_for t index = do
  n ← len t
  some (
      if ltb n index then none else some (record { path = proof_path t.tree index; index = index }))

module _ (digest : List ℕ → Hash) where
  -- `chunks(2)`, each rehashed.
  unfoldable pub iterate_level : List Hash → List Hash
  iterate_level [] = []
  iterate_level (single ∷ []) = rehash digest single default ∷ []
  iterate_level (l ∷ r ∷ level) = rehash digest l r ∷ iterate_level level

  -- `successors`, on fuel: from the leaves to the first level of at most one hash.
  unfoldable pub successors : ℕ → List Hash → List (List Hash)
  successors zero level = level ∷ []
  successors (suc fuel) level =
      let more = successors fuel (iterate_level level) in
      level ∷ (if ltb 1 (length level) then more else [])

  -- `MerkleTree::from`
  unfoldable pub from_leaves : List Hash → MerkleTree
  from_leaves leaves = record { tree = reverse (successors (length leaves) leaves) }

  -- The loop of `is_proved_by`; `mask <<= 1` drops the high bit.
  unfoldable pub is_proved_loop : Hash → ℕ → List Hash → ℕ → Hash → Bool
  is_proved_loop root_value index [] mask current = hash_eq current root_value
  is_proved_loop root_value index (hash ∷ path) mask current =
      let next =
        if not (bit_and index mask == 0)
        then rehash digest hash current
        else rehash digest current hash in
      let rest = is_proved_loop root_value index path ((2 * mask) % 2 ^ 64) next in
      if not (hash_eq hash next) then false else rest

  -- `Hash::is_proved_by`, and `InclusionProof::proves` with its arguments swapped.
  unfoldable pub is_proved_by : Hash → Hash → InclusionProof → Bool
  is_proved_by self root_value proof = is_proved_loop root_value proof.index proof.path 1 self

  unfoldable pub proves : InclusionProof → Hash → Hash → Bool
  proves self root_value hash = is_proved_by hash root_value self

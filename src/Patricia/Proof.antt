-- ===== src/Patricia/Proof.antt =====
-- common/src/patricia_map.rs: `PatriciaProof` and its check, `is_in`.
pub mod Rebuild
pub mod Binding
use samizdat.Prelude.{
  ℕ, zero, suc, ◌+◌, Bool, true, false, List, [], ◌∷◌, Option, none, some, ◌==◌, if◌then◌else◌,
  ◌>>=◌, reverse, length,
}
use samizdat.Hash.{Hash, rehash, hash_eq}
use samizdat.Patricia.Segment.{Side, left, right, bits}
use samizdat.Patricia.Tree.{step_default}

pub record PatriciaProof : Type 0 where
  pub claimed_key : Hash
  pub claimed_value : Hash
  -- From root to leaf.
  pub path : List (Hash × ℕ)

-- `.map(|(_, len)| *len as usize).sum::<usize>()`
unfoldable pub sum_lens : List (Hash × ℕ) → ℕ
sum_lens [] = 0
sum_lens ((h, len) ∷ path) = len + sum_lens path

unfoldable pub bit_length : List (Hash × ℕ) → ℕ
bit_length path = length path + sum_lens path

-- The next bit, and the rest of the iterator.
abbrev pub next_side : List Side → Option (Side × List Side)
next_side [] = none
next_side (side ∷ it) = some (side, it)

module _ (digest : List ℕ → Hash) where
  -- The end of an element of the path: the hash beside the current one.
  abbrev pub step : Side → Hash → Hash → Hash
  step left current hash = rehash digest current hash
  step right current hash = rehash digest hash current

  -- `for _ in 0..*segment_len`; `none` is the panic of `expect("length checked")`.
  unfoldable pub is_in_segment : ℕ → List Side → Hash → Option (List Side × Hash)
  is_in_segment zero it current = some (it, current)
  is_in_segment (suc n) [] current = none
  is_in_segment (suc n) (side ∷ it) current = is_in_segment n it (step_default digest side current)

  unfoldable pub is_in_loop : List (Hash × ℕ) → List Side → Hash → Option (List Side × Hash)
  is_in_loop [] it current = some (it, current)
  is_in_loop ((hash, segment_len) ∷ path) it current = do
    (it', current') ← is_in_segment segment_len it current
    (side, it'') ← next_side it'
    is_in_loop path it'' (step side current' hash)

  -- `PatriciaProof::is_in`
  unfoldable pub is_in : PatriciaProof → Hash → Option Bool
  is_in proof root =
      if bit_length proof.path == 224
      then is_in_loop (reverse proof.path) (reverse (bits proof.claimed_key)) proof.claimed_value
        >>= (λ (it, current). some (hash_eq current root))
      else some false

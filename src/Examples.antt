-- ===== src/Examples.antt =====
-- Concrete runs: hashes and a digest to try the definitions on, and each theorem on an input. The tests
-- are grouped by component.
mod Maps
mod Trees
mod Marks
mod Nonces
mod Streams
mod Names
mod Requests
mod Items
mod Riddles
mod Objects
mod Transfers
mod ItemTransfers
mod Editions
mod Vacuums
mod Matchers
mod Hubs
mod Nodes
mod Queries
mod Latest
mod Redirects
mod KvStores
mod Identities
use samizdat.Prelude.{
  ◌*◌, ℕ, zero, suc, ◌+◌, ◌<◌, ◌%◌, ◌≡◌, refl, List, [], ◌∷◌, arith, length, replicate,
}
use samizdat.Hash.{Hash, IsHash, AllBytes}

replicate-AllBytes : (n b : ℕ) → b < 256 → AllBytes (replicate n b)
replicate-AllBytes zero b h = tt
replicate-AllBytes (suc n) b h = (h, replicate-AllBytes n b h)

-- A hash of 28 equal bytes.
abbrev pub key_of : ℕ → Hash
key_of b = replicate 28 b

pub key_of-IsHash : (b : ℕ) → b < 256 → IsHash (key_of b)
key_of-IsHash b h = record { sized = refl; bytes = replicate-AllBytes 28 b h }

abbrev sum : List ℕ → ℕ
sum [] = 7
sum (x ∷ xs) = (x + 3 * sum xs) % 256

-- A small digest: one byte that depends on all of the text, and 27 others.
abbrev pub toy : List ℕ → Hash
toy x = sum x ∷ replicate 27 (length x % 256)

-- A digest with one value only, so that everything collides.
abbrev pub constant : List ℕ → Hash
constant x = replicate 28 0

sum-lt : (x : List ℕ) → sum x < 256
sum-lt [] = omega arith
sum-lt (x ∷ xs) = omega arith

pub toy-IsHash : (x : List ℕ) → IsHash (toy x)
toy-IsHash x = record {
  sized = refl;
  bytes = (sum-lt x, replicate-AllBytes 27 (length x % 256) (omega arith));
}

pub constant-IsHash : (x : List ℕ) → IsHash (constant x)
constant-IsHash x = key_of-IsHash 0 (omega arith)

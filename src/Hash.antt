-- ===== src/Hash.antt =====
-- common/src/hash.rs: `struct Hash`, 28 bytes, and its operations.
use samizdat.Prelude.{
  ℕ, ◌≡◌, refl, ◌<◌, Bool, true, false, ◌&&◌, List, [], ◌∷◌, ◌++◌, arith, ◌==◌, ◌↔◌, length,
  replicate,
}

-- `pub struct Hash(pub [u8; 28])`: the bytes, first to last. The array's length and the range of
-- `u8` are the predicate `IsHash`.
abbrev pub Hash : Type 0
Hash = List ℕ

abbrev pub AllBytes : List ℕ → Type 0
AllBytes [] = Unit
AllBytes (b ∷ bs) = (b < 256) × AllBytes bs

pub record IsHash (h : Hash) : Type 0 where
  pub sized : length h ≡ 28
  pub bytes : AllBytes h

-- `Hash::default()`: the zero array.
abbrev pub default : Hash
default = replicate 28 0

-- The derived `==` of the byte arrays.
unfoldable pub hash_eq : Hash → Hash → Bool
hash_eq [] [] = true
hash_eq [] (b ∷ bs) = false
hash_eq (a ∷ as') [] = false
hash_eq (a ∷ as') (b ∷ bs) = a == b && hash_eq as' bs

pub hash_eq_iff : (a b : Hash) → (hash_eq a b ≡ true) ↔ (a ≡ b)
unfolding hash_eq
hash_eq_iff [] [] = (λ _. refl, λ _. refl)
hash_eq_iff [] (b ∷ bs) = (λ e. cc, λ e. cc)
hash_eq_iff (a ∷ as') [] = (λ e. cc, λ e. cc)
hash_eq_iff (a ∷ as') (b ∷ bs) =
    (λ e. ground (arith, (hash_eq_iff as' bs).0), λ e. ground (arith, (hash_eq_iff as' bs).1))

-- `Sha3_224::digest` is the parameter `digest`; `Hash::new` keeps its 28 bytes.
module _ (digest : List ℕ → Hash) where
  -- `Hash::hash([rand.0, self.0].concat())`: the argument comes first.
  abbrev pub rehash : Hash → Hash → Hash
  rehash self rand = digest (rand ++ self)

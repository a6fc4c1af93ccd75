-- ===== src/Patricia/Segment/Bytes.antt =====
-- The bits of a byte and of a hash: reading, setting, and that they determine it. The facts about one
-- byte are checked for all its 256 values.
use Prim.Native.Nat.{bit_or}
use samizdat.Prelude.{
  ℕ, zero, suc, ◌+◌, ◌*◌, ◌^◌, ◌<◌, ◌≡◌, refl, ap, ap₂, sym, ◌∙◌, Bool, true, false, ◌&&◌, List, [],
  ◌∷◌, ◌++◌, some, arith, ltb, ltb→lt, ◌==◌, ==_iff, set, get_elem?, take, drop, length,
}
use samizdat.Hash.{Hash, AllBytes}
use samizdat.Patricia.Segment.{Side, left, right, side_eq, byte_bits, bits}

-- Whether a test holds at every number below a bound.
holds_below : (ℕ → Bool) → ℕ → Bool
holds_below p zero = true
holds_below p (suc bound) = holds_below p bound && p bound

-- A test that holds below a bound holds at each number there.
holds_at : (p : ℕ → Bool) (b bound : ℕ) → b < bound → holds_below p bound ≡ true → p b ≡ true
unfolding holds_below
holds_at p b zero below all = absurd (omega arith)
holds_at p b (suc bound) below all = ground (arith, holds_at p b bound)

abbrev pub sides_eq : List Side → List Side → Bool
sides_eq [] [] = true
sides_eq [] (t ∷ ts) = false
sides_eq (s ∷ ss) [] = false
sides_eq (s ∷ ss) (t ∷ ts) = side_eq s t && sides_eq ss ts

pub eq_of_side_eq : (s t : Side) → side_eq s t ≡ true → s ≡ t
eq_of_side_eq left left h = refl
eq_of_side_eq left right h = cc
eq_of_side_eq right left h = cc
eq_of_side_eq right right h = refl

pub eq_of_sides_eq : (ss ts : List Side) → sides_eq ss ts ≡ true → ss ≡ ts
eq_of_sides_eq [] [] h = refl
eq_of_sides_eq [] (t ∷ ts) h = cc
eq_of_sides_eq (s ∷ ss) [] h = cc
eq_of_sides_eq (s ∷ ss) (t ∷ ts) h = ground (arith, eq_of_side_eq s t, eq_of_sides_eq ss ts)

pub sides_eq_refl : (ss : List Side) → sides_eq ss ss ≡ true
sides_eq_refl [] = refl
sides_eq_refl (left ∷ ss) = sides_eq_refl ss
sides_eq_refl (right ∷ ss) = sides_eq_refl ss

abbrev or_test : ℕ → ℕ → Bool
or_test k b = sides_eq (byte_bits (bit_or b (2 ^ k))) (set (byte_bits b) k left)

abbrev range_test : ℕ → ℕ → Bool
range_test k b = ltb (bit_or b (2 ^ k)) 256

or_table : holds_below (λ k. holds_below (or_test k) 256) 8 ≡ true
unfolding holds_below byte_bits
or_table = refl

range_table : holds_below (λ k. holds_below (range_test k) 256) 8 ≡ true
unfolding holds_below
range_table = refl

-- A test of a bit and a byte that holds for all of them.
holds_at_byte :
    (test : ℕ → ℕ → Bool) (k b : ℕ)
    → k < 8
    → b < 256
    → holds_below (λ j. holds_below (test j) 256) 8 ≡ true
    → test k b ≡ true
holds_at_byte test k b hk hb all =
    holds_at (test k) b 256 hb (holds_at (λ j. holds_below (test j) 256) k 8 hk all)

-- Setting bit `k` of a byte sets entry `k` of its list of bits.
pub byte_bits-or :
    (k b : ℕ) → k < 8 → b < 256 → byte_bits (bit_or b (2 ^ k)) ≡ set (byte_bits b) k left
byte_bits-or k b hk hb = eq_of_sides_eq _ _ (holds_at_byte or_test k b hk hb or_table)

pub or-lt : (k b : ℕ) → k < 8 → b < 256 → bit_or b (2 ^ k) < 256
or-lt k b hk hb = ltb→lt _ _ (holds_at_byte range_test k b hk hb range_table)

pub length-bits : (h : Hash) → length (bits h) ≡ 8 * length h
unfolding bits byte_bits
length-bits [] = refl
length-bits (b ∷ bs) = omega (arith, length-bits bs)

set-byte_bits :
    (b : ℕ) (rest : List Side) (k : ℕ)
    → k < 8
    → set (byte_bits b ++ rest) k left ≡ set (byte_bits b) k left ++ rest
unfolding byte_bits
set-byte_bits b rest zero h = refl
set-byte_bits b rest (suc zero) h = refl
set-byte_bits b rest (suc (suc zero)) h = refl
set-byte_bits b rest (suc (suc (suc zero))) h = refl
set-byte_bits b rest (suc (suc (suc (suc zero)))) h = refl
set-byte_bits b rest (suc (suc (suc (suc (suc zero))))) h = refl
set-byte_bits b rest (suc (suc (suc (suc (suc (suc zero)))))) h = refl
set-byte_bits b rest (suc (suc (suc (suc (suc (suc (suc zero))))))) h = refl
set-byte_bits b rest (suc (suc (suc (suc (suc (suc (suc (suc k)))))))) h = absurd (omega arith)

set-byte_bits_beyond :
    (b : ℕ) (rest : List Side) (n : ℕ)
    → set (byte_bits b ++ rest) (suc (suc (suc (suc (suc (suc (suc (suc n)))))))) left
      ≡ byte_bits b ++ set rest n left
unfolding byte_bits
set-byte_bits_beyond b rest n = refl

pub get_elem?-lt {ℓ} :
    {A : Type ℓ} (xs : List A) (i : ℕ) → i < length xs → (x : A) × (get_elem? xs i ≡ some x)
get_elem?-lt [] i h = elim h [ ]
get_elem?-lt (x ∷ xs) zero h = (x, refl)
get_elem?-lt (x ∷ xs) (suc i) h = get_elem?-lt xs i (omega arith)

pub length-set {ℓ} : {A : Type ℓ} (xs : List A) (i : ℕ) (v : A) → length (set xs i v) ≡ length xs
length-set [] i v = refl
length-set (x ∷ xs) zero v = refl
length-set (x ∷ xs) (suc i) v = ap suc (length-set xs i v)

pub AllBytes-set : (bs : List ℕ) (i v : ℕ) → AllBytes bs → v < 256 → AllBytes (set bs i v)
AllBytes-set [] i v h hv = tt
AllBytes-set (b ∷ bs) zero v h hv = (hv, h.1)
AllBytes-set (b ∷ bs) (suc i) v h hv = (h.0, AllBytes-set bs i v h.1 hv)

pub AllBytes-get : (bs : List ℕ) (i v : ℕ) → AllBytes bs → get_elem? bs i ≡ some v → v < 256
AllBytes-get [] i v h e = absurd cc
AllBytes-get (b ∷ bs) zero v h e = ground arith
AllBytes-get (b ∷ bs) (suc i) v h e = AllBytes-get bs i v h.1 e

-- Setting bit `k` of byte `i` of a slice sets entry `8 * i + k` of its list of bits.
pub bits-set_or :
    (slice : Hash) (i k b n : ℕ)
    → AllBytes slice
    → k < 8
    → get_elem? slice i ≡ some b
    → 8 * i + k ≡ n
    → bits (set slice i (bit_or b (2 ^ k))) ≡ set (bits slice) n left
unfolding bits
bits-set_or [] i k b n hb hk e hn = absurd cc
bits-set_or (a ∷ bs) zero k b n hb hk e hn =
    let ea : a ≡ b = cc in
    let en : k ≡ n = omega arith in
    rw (← ea, byte_bits-or k a hk hb.0, ← en) (sym (set-byte_bits a (bits bs) k hk))
bits-set_or (a ∷ bs) (suc i) k b n hb hk e hn =
    let en : n ≡ suc (suc (suc (suc (suc (suc (suc (suc (8 * i + k)))))))) = omega arith in
    rw (en, bits-set_or bs i k b (8 * i + k) hb.1 hk e refl)
      (sym (set-byte_bits_beyond a (bits bs) (8 * i + k)))

-- The number that eight sides stand for.
side_value : Side → ℕ
side_value left = 1
side_value right = 0

sides_value : List Side → ℕ
unfolding side_value
sides_value [] = 0
sides_value (s ∷ ss) = side_value s + 2 * sides_value ss

value_table : holds_below (λ b. sides_value (byte_bits b) == b) 256 ≡ true
unfolding holds_below sides_value byte_bits
value_table = refl

byte_bits-injective : (a b : ℕ) → a < 256 → b < 256 → byte_bits a ≡ byte_bits b → a ≡ b
byte_bits-injective a b ha hb e =
    let value = λ (x : ℕ) (hx : x < 256).
      (==_iff _ x).0 (holds_at (λ b. sides_value (byte_bits b) == b) x 256 hx value_table) in
    sym (value a ha) ∙ ap sides_value e ∙ value b hb

take-byte_bits : (b : ℕ) (rest : List Side) → take 8 (byte_bits b ++ rest) ≡ byte_bits b
unfolding byte_bits
take-byte_bits b rest = refl

drop-byte_bits : (b : ℕ) (rest : List Side) → drop 8 (byte_bits b ++ rest) ≡ rest
unfolding byte_bits
drop-byte_bits b rest = refl

-- Two hashes with the same bits are the same hash.
pub bits-injective :
    (g h : Hash) → AllBytes g → AllBytes h → length g ≡ length h → bits g ≡ bits h → g ≡ h
unfolding bits
bits-injective [] [] hg hh hl e = refl
bits-injective [] (b ∷ bs) hg hh hl e = absurd (omega arith)
bits-injective (a ∷ as') [] hg hh hl e = absurd (omega arith)
bits-injective (a ∷ as') (b ∷ bs) hg hh hl e =
    let back = sym (drop-byte_bits a (bits as')) ∙ ap (drop 8) e ∙ drop-byte_bits b (bits bs) in
    ap₂ (λ x l. x ∷ l)
      (byte_bits-injective a b hg.0 hh.0
        (sym (take-byte_bits a (bits as')) ∙ ap (take 8) e ∙ take-byte_bits b (bits bs)))
      (bits-injective as' bs hg.1 hh.1 (omega arith) back)

-- ===== src/Patricia/Segment/RoundTrip.antt =====
-- `bits` and `Segment::from_bits` are inverse to one another.
use Prim.Native.Nat.{bit_or}
use samizdat.Prelude.{
  ℕ, suc, ◌+◌, ◌-◌, ◌/◌, ◌%◌, ◌^◌, ◌≤◌, ◌<◌, ◌≡◌, refl, ap, sym, ◌∙◌, List, [], ◌∷◌, ◌++◌, some,
  arith, set, replicate, length, length-append, set-append, take-append, append_assoc, append-nil,
}
use samizdat.Hash.{Hash, AllBytes, IsHash, default}
use samizdat.Patricia.Segment.{
  Side, left, right, byte_bits, bits, Segment, push_side, set_bit, push_sides, from_bits,
  segment_bits,
}
use samizdat.Patricia.Segment.Bytes.{
  or-lt, get_elem?-lt, length-set, AllBytes-set, AllBytes-get, bits-set_or, length-bits,
  bits-injective,
}

-- Part of the way through `from_bits`: `done` has been read, and `m` bits of the slice are free.
record IsPushed (done : List Side) (m : ℕ) (s : Segment) : Type 0 where
  sized : length s.slice ≡ 28
  bytes : AllBytes s.slice
  counted : s.len ≡ length done
  total : length done + m ≡ 224
  written : bits s.slice ≡ done ++ replicate m right

push_side-IsPushed :
    (side : Side) (done : List Side) (m : ℕ) (s : Segment)
    → IsPushed done (suc m) s
    → (s' : Segment) × (push_side side s ≡ some s') × IsPushed (done ++ side ∷ []) m s'
unfolding push_side set_bit
push_side-IsPushed left done m s p =
    let len_lt : s.len < 224 = omega (arith, p.total, p.counted) in
    let (b, e) = get_elem?-lt s.slice (s.len / 8) (omega (arith, p.sized)) in
    let b_lt = AllBytes-get s.slice (s.len / 8) b p.bytes e in
    (
      record {
        slice = set s.slice (s.len / 8) (bit_or b (2 ^ (s.len % 8)));
        len = (s.len + 1) % 256;
      },
      rw e refl,
      record {
        sized = length-set s.slice _ _ ∙ p.sized;
        bytes = AllBytes-set s.slice _ _ p.bytes (or-lt (s.len % 8) b (omega arith) b_lt);
        counted = omega (arith, p.counted, length-append done (left ∷ []));
        total = omega (arith, p.total, length-append done (left ∷ []));
        written =
            bits-set_or s.slice (s.len / 8) (s.len % 8) b (length done) p.bytes (omega arith) e
              (omega (arith, p.counted))
            ∙ ap (λ l. set l (length done) left) p.written
            ∙ set-append done (replicate m right) right left
            ∙ sym (append_assoc done (left ∷ []) (replicate m right));
      },
    )
push_side-IsPushed right done m s p = (
  record { slice = s.slice; len = (s.len + 1) % 256 },
  refl,
  record {
    sized = p.sized;
    bytes = p.bytes;
    counted = omega (arith, p.counted, p.total, length-append done (right ∷ []));
    total = omega (arith, p.total, length-append done (right ∷ []));
    written = p.written ∙ sym (append_assoc done (right ∷ []) (replicate m right));
  },
)

push_sides-IsPushed :
    (it done : List Side) (m : ℕ) (s : Segment)
    → IsPushed done (length it + m) s
    → (s' : Segment) × (push_sides it s ≡ some s') × IsPushed (done ++ it) m s'
unfolding push_sides
push_sides-IsPushed [] done m s p =
    let e : 0 + m ≡ m = omega arith in (s, refl, rw (append-nil done) (rw e at p))
push_sides-IsPushed (side ∷ it) done m s p =
    let e : suc (length it) + m ≡ suc (length it + m) = omega arith in
    let (s', ps, q) = push_side-IsPushed side done (length it + m) s (rw e at p) in
    let (s'', pss, r) = push_sides-IsPushed it (done ++ side ∷ []) m s' q in
    (s'', rw ps pss, rw append_assoc at r)

bits-default : bits default ≡ replicate 224 right
unfolding bits byte_bits
bits-default = refl

-- What `from_bits` writes: a slice of 28 bytes that holds the sides and then zeroes.
pub from_bits_written :
    (it : List Side) (m : ℕ)
    → length it + m ≡ 224
    → (s : Segment) × (from_bits it ≡ some s)
      × IsHash s.slice
      × (s.len ≡ length it)
      × (bits s.slice ≡ it ++ replicate m right)
unfolding from_bits
from_bits_written it m h =
    let (s, e, p) =
      push_sides-IsPushed it [] m (record { slice = default; len = 0 })
        (rw h record {
          sized = refl;
          bytes = omega arith;
          counted = refl;
          total = refl;
          written = bits-default;
        }) in
    (s, e, record { sized = p.sized; bytes = p.bytes }, p.counted, p.written)

-- Reading back the bits of a segment gives the sides that it was made from.
pub segment_bits-from_bits :
    (it : List Side)
    → length it ≤ 224
    → (s : Segment) × (from_bits it ≡ some s) × (segment_bits s ≡ it) × (s.len ≡ length it)
unfolding segment_bits
segment_bits-from_bits it h =
    let (s, e, _, hl, hb) = from_bits_written it (224 - length it) (omega arith) in
    (s, e, rw (hl, hb) (take-append it _), hl)

-- The sides of a hash make the segment that holds the hash whole.
pub from_bits-bits :
    (h : Hash) → IsHash h → from_bits (bits h) ≡ some (record { slice = h; len = 224 })
from_bits-bits h p =
    let l : length (bits h) ≡ 224 = omega (arith, length-bits h, p.sized) in
    let (s, e, q, hl, hb) = from_bits_written (bits h) 0 (omega arith) in
    let same : s.slice ≡ h =
      bits-injective s.slice h q.bytes p.bytes (q.sized ∙ sym p.sized) (hb ∙ append-nil (bits h)) in
    e ∙ (λ i. some (record { slice = same i; len = (hl ∙ l) i }))

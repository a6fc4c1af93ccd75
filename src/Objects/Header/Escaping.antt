-- ===== src/Objects/Header/Escaping.antt =====
-- A header that was written is read back, and the source is left at the first byte of the content.
use samizdat.Prelude.{
  append_assoc, ℕ, zero, suc, ◌+◌, ◌≤◌, ◌==◌, ==_iff, ◌≡◌, refl, ap, sym, ◌∙◌, Bool, false, not,
  ◌&&◌, List, [], ◌∷◌, ◌++◌, Option, some, arith, map, length, Bool-cases, inl, inr, length-append,
}
use samizdat.Codec.{Codec, ReadsBack}
use samizdat.Objects.Header.{
  chunk_size, ObjectHeader, escape, buffer, HeaderRead, read_byte, read_loop, read_header,
}

-- A source that yields these bytes, and no error.
abbrev pub oks : List ℕ → List (Option ℕ)
oks = map some

pub oks-append : (xs ys : List ℕ) → oks (xs ++ ys) ≡ oks xs ++ oks ys
oks-append [] ys = refl
oks-append (x ∷ xs) ys = ap (λ l. some x ∷ l) (oks-append xs ys)

pub length-oks : (xs : List ℕ) → length (oks xs) ≡ length xs
length-oks [] = refl
length-oks (x ∷ xs) = ap suc (length-oks xs)

abbrev found : ℕ → List ℕ → List (Option ℕ) → Option HeaderRead
found read kept rest = some (record { read = read; kept = kept; rest = rest })

same_read :
    {a b : ℕ} {xs ys : List ℕ} (rest : List (Option ℕ))
    → a ≡ b
    → xs ≡ ys
    → found a xs rest ≡ found b ys rest
same_read rest p q = λ i. found (p i) (q i) rest

read_loop_step :
    (limit : ℕ) (quoted is_null : Bool) (byte : ℕ) (source : List (Option ℕ))
    → (byte == 0) ≡ is_null
    → read_loop (suc limit) quoted (some byte ∷ source)
      ≡ read_byte quoted is_null byte source (read_loop limit (not quoted && is_null) source)
unfolding read_loop
read_loop_step limit quoted is_null byte source h =
    ap (λ b. read_byte quoted b byte source (read_loop limit (not quoted && b) source)) h

read_loop-escape :
    (limit : ℕ) (bytes : List ℕ) (rest : List (Option ℕ))
    → length (escape bytes) + 2 ≤ limit
    → read_loop limit false (oks (escape bytes) ++ some 0 ∷ some 1 ∷ rest)
      ≡ some (record { read = length (escape bytes) + 2; kept = bytes; rest = rest })
unfolding read_loop escape
read_loop-escape zero bytes rest h = absurd (omega arith)
read_loop-escape (suc zero) bytes rest h = absurd (omega arith)
read_loop-escape (suc (suc n)) [] rest h = refl
read_loop-escape (suc (suc n)) (byte ∷ bytes) rest h = elim (Bool-cases (byte == 0)) [
  | inl e ↦
      let same : byte ≡ 0 = (==_iff byte 0).0 e in
      let room : length (escape bytes) + 2 ≤ n = omega (arith, rw e at h) in
      rw e (
        rw (read_loop-escape n bytes rest room)
          (same_read rest (omega arith) (ap (λ b. b ∷ bytes) (sym same))))
  | inr e ↦
      let room : length (escape bytes) + 2 ≤ suc n = omega (arith, rw e at h) in
      rw e (
        read_loop_step (suc n) false false byte (oks (escape bytes) ++ some 0 ∷ some 1 ∷ rest) e
        ∙ rw (read_loop-escape (suc n) bytes rest room) (same_read rest (omega arith) refl))
]

-- A header whose written form fits into a chunk is read back from any source that starts with this
-- form, and what follows is left in the source.
pub read_header-buffer :
    (codec : Codec ObjectHeader) (header : ObjectHeader) (rest : List (Option ℕ))
    → ReadsBack codec
    → length (buffer codec header) ≤ chunk_size
    → read_header codec (oks (buffer codec header) ++ rest)
      ≡ some (length (buffer codec header), header, rest)
unfolding read_header
read_header-buffer codec header rest back h =
    let written = escape (codec.serialize header) in
    let sized = length-append written (0 ∷ 1 ∷ []) in
    let split =
      ap (λ l. l ++ rest) (oks-append written (0 ∷ 1 ∷ []))
      ∙ append_assoc (oks written) (some 0 ∷ some 1 ∷ []) rest in
    rw split (
      rw (read_loop-escape chunk_size (codec.serialize header) rest (omega (arith, sized)))
        (rw (back.round_trip header) (ap (λ n. some (n, header, rest)) (sym sized))))

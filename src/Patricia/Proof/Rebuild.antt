-- ===== src/Patricia/Proof/Rebuild.antt =====
-- `is_in` reads the path and the key from their ends. The same hash, computed from their beginnings.
use mathlib.Core.List.{reverse-append}
use samizdat.Prelude.{
  ℕ, zero, suc, ◌+◌, ◌≤◌, ◌≡◌, refl, ap, ap₂, sym, ◌∙◌, List, [], ◌∷◌, ◌++◌, Option, none, some,
  arith, ◌>>=◌, reverse, reverse-cons, append_assoc, take, drop, length, length-reverse,
}
use samizdat.Hash.{Hash}
use samizdat.Patricia.Segment.{Side}
use samizdat.Patricia.Tree.{step_default, climb_loop}
use samizdat.Patricia.Proof.{sum_lens, bit_length, step, is_in_segment, next_side, is_in_loop}

module _ (digest : List ℕ → Hash) where
  -- The hash at the top of a segment.
  unfoldable pub climb : List Side → Hash → Hash
  climb [] current = current
  climb (side ∷ it) current = step_default digest side (climb it current)

  -- The root's hash that a path gives.
  unfoldable pub rebuild : List (Hash × ℕ) → List Side → Hash → Hash
  rebuild [] it value = value
  rebuild ((hash, len) ∷ path) [] value = value
  rebuild ((hash, len) ∷ path) (side ∷ it) value =
      step digest side (climb (take len it) (rebuild path (drop len it) value)) hash

  climb_loop-append :
      (p q : List Side) (c : Hash)
      → climb_loop digest (p ++ q) c ≡ climb_loop digest q (climb_loop digest p c)
  unfolding climb_loop
  climb_loop-append [] q c = refl
  climb_loop-append (s ∷ p) q c = climb_loop-append p q (step_default digest s c)

  pub climb_loop-reverse :
      (it : List Side) (c : Hash) → climb_loop digest (reverse it) c ≡ climb it c
  unfolding climb_loop climb
  climb_loop-reverse [] c = refl
  climb_loop-reverse (s ∷ it) c =
      ap (λ l. climb_loop digest l c) (reverse-cons s it)
      ∙ climb_loop-append (reverse it) (s ∷ []) c
      ∙ ap (step_default digest s) (climb_loop-reverse it c)

  is_in_segment-append :
      (p rest : List Side) (c : Hash)
      → is_in_segment digest (length p) (p ++ rest) c ≡ some (rest, climb_loop digest p c)
  unfolding is_in_segment climb_loop
  is_in_segment-append [] rest c = refl
  is_in_segment-append (s ∷ p) rest c = is_in_segment-append p rest (step_default digest s c)

  is_in_loop-append :
      (p q : List (Hash × ℕ)) (it it' : List Side) (c c' : Hash)
      → is_in_loop digest p it c ≡ some (it', c')
      → is_in_loop digest (p ++ q) it c ≡ is_in_loop digest q it' c'
  unfolding is_in_loop
  is_in_loop-append [] q it it' c c' e = ground arith
  is_in_loop-append ((h, n) ∷ p) q it it' c c' e =
      segment (is_in_segment digest n it c) (λ i x. is_in_loop-append p q i it' x c') e
    where
      segment :
          (o : Option (List Side × Hash))
          → ((i : List Side) (x : Hash)
              → is_in_loop digest p i x ≡ some (it', c')
              → is_in_loop digest (p ++ q) i x ≡ is_in_loop digest q it' c')
          → (o >>= λ (it₁, c₁).
              next_side it₁ >>= λ (side, it₂). is_in_loop digest p it₂ (step digest side c₁ h))
            ≡ some (it', c')
          → (o >>= λ (it₁, c₁). next_side it₁ >>= λ (side, it₂).
              is_in_loop digest (p ++ q) it₂ (step digest side c₁ h))
            ≡ is_in_loop digest q it' c'
      segment none ih e = cc
      segment (some ([], x)) ih e = cc
      segment (some (side ∷ i, x)) ih e = ih i (step digest side x h) e

  take-drop :
      (n : ℕ) (it : List Side)
      → n ≤ length it
      → (it ≡ take n it ++ drop n it)
        × (length (take n it) ≡ n)
        × (length (drop n it) + n ≡ length it)
  take-drop zero it h = (refl, refl, omega arith)
  take-drop (suc n) [] h = absurd (omega arith)
  take-drop (suc n) (s ∷ it) h =
      let (e, l, k) = take-drop n it (omega arith) in (ap (λ x. s ∷ x) e, ap suc l, omega arith)

  reverse_split :
      (front back tail : List Side) (side : Side)
      → reverse (side ∷ (front ++ back)) ++ tail ≡ reverse back ++ (reverse front ++ side ∷ tail)
  reverse_split front back tail side =
      ap (λ l. l ++ tail) (reverse-cons side (front ++ back))
      ∙ append_assoc (reverse (front ++ back)) (side ∷ []) tail
      ∙ ap (λ l. l ++ side ∷ tail) (reverse-append front back)
      ∙ append_assoc (reverse back) (reverse front) (side ∷ tail)

  -- The last element of a reversed path.
  is_in_last :
      (h : Hash) (n : ℕ) (side : Side) (front tail : List Side) (c : Hash)
      → length front ≡ n
      → is_in_loop digest ((h, n) ∷ []) (reverse front ++ side ∷ tail) c
        ≡ some (tail, step digest side (climb front c) h)
  unfolding is_in_loop
  is_in_last h n side front tail c e =
      let e' : n ≡ length (reverse front) = sym e ∙ sym (length-reverse front) in
      rw (e', is_in_segment-append (reverse front) (side ∷ tail) c)
        (ap (λ x. some (tail, step digest side x h)) (climb_loop-reverse front c))

  -- On as many bits as the path says, the loop of `is_in` computes the rebuilt hash.
  pub is_in_loop-reverse :
      (path : List (Hash × ℕ)) (it tail : List Side) (value : Hash)
      → bit_length path ≡ length it
      → is_in_loop digest (reverse path) (reverse it ++ tail) value
        ≡ some (tail, rebuild path it value)
  unfolding bit_length sum_lens rebuild is_in_loop
  is_in_loop-reverse [] [] tail value h = refl
  is_in_loop-reverse [] (s ∷ it) tail value h = absurd (omega arith)
  is_in_loop-reverse ((hash, len) ∷ path) [] tail value h = absurd (omega arith)
  is_in_loop-reverse ((hash, len) ∷ path) (side ∷ it) tail value h =
      let (split, taken, dropped) = take-drop len it (omega arith) in
      ap₂ (λ p b. is_in_loop digest p b value) (reverse-cons (hash, len) path)
        (ap (λ l. reverse (side ∷ l) ++ tail) split
          ∙ reverse_split (take len it) (drop len it) tail side)
      ∙ is_in_loop-append (reverse path) ((hash, len) ∷ []) _ _ value _ (
          is_in_loop-reverse path (drop len it) (reverse (take len it) ++ side ∷ tail) value
            (omega arith))
      ∙ is_in_last hash len side (take len it) tail (rebuild path (drop len it) value) taken

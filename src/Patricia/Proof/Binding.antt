-- ===== src/Patricia/Proof/Binding.antt =====
-- Two accepted proofs for one root and one key claim the same value, or show a collision of the
-- digest.
use samizdat.Prelude.{
  append_parts, ℕ, zero, suc, ◌+◌, ◌-◌, ◌*◌, ◌≤◌, ◌≡◌, ◌≢◌, refl, ap, sym, ◌∙◌, true, List, [], ◌∷◌,
  ◌++◌, some, arith, reverse, append-nil, take, drop, length, Bool-cases, inl, inr, ◌⊎◌, eq_of_some,
  ◌==◌, ==_iff,
}
use samizdat.Hash.{Hash, IsHash, default, rehash, hash_eq, hash_eq_iff}
use samizdat.Patricia.Segment.{Side, left, right, bits}
use samizdat.Patricia.Segment.Bytes.{length-bits}
use samizdat.Patricia.Tree.{step_default}
use samizdat.Patricia.Proof.{PatriciaProof, step, is_in, is_in_loop, bit_length, sum_lens}
use samizdat.Patricia.Proof.Rebuild.{climb, rebuild, is_in_loop-reverse}

-- Two texts of one digest.
pub record Collision (digest : List ℕ → Hash) : Type 0 where
  pub first : List ℕ
  pub second : List ℕ
  pub different : first ≢ second
  pub same : digest first ≡ digest second

abbrev pub AllSized : List (Hash × ℕ) → Type 0
AllSized [] = Unit
AllSized ((h, n) ∷ path) = (length h ≡ 28) × AllSized path

-- The hashes beside the path, one for each bit of the key.
abbrev defaults : ℕ → List Hash → List Hash
defaults zero l = l
defaults (suc k) l = default ∷ defaults k l

abbrev siblings : List (Hash × ℕ) → List Hash
siblings [] = []
siblings ((h, n) ∷ path) = h ∷ defaults n (siblings path)

abbrev Sized : List Hash → Type 0
Sized [] = Unit
Sized (h ∷ hs) = (length h ≡ 28) × Sized hs

defaults-Sized : (n : ℕ) (l : List Hash) → Sized l → Sized (defaults n l)
defaults-Sized zero l h = h
defaults-Sized (suc n) l h = (refl, defaults-Sized n l h)

siblings-Sized : (path : List (Hash × ℕ)) → AllSized path → Sized (siblings path)
siblings-Sized [] h = tt
siblings-Sized ((x, n) ∷ path) h = (h.0, defaults-Sized n (siblings path) (siblings-Sized path h.1))

length-defaults : (n : ℕ) (l : List Hash) → length (defaults n l) ≡ n + length l
length-defaults zero l = omega arith
length-defaults (suc n) l = omega (arith, length-defaults n l)

length-siblings : (path : List (Hash × ℕ)) → length (siblings path) ≡ bit_length path
unfolding bit_length sum_lens
length-siblings [] = refl
length-siblings ((h, n) ∷ path) =
    omega (arith, length-defaults n (siblings path), length-siblings path)

module _ (digest : List ℕ → Hash) where
  -- One step for each bit and the hash beside it.
  steps : List Side → List Hash → Hash → Hash
  steps [] hs v = v
  steps (b ∷ bs) [] v = v
  steps (b ∷ bs) (h ∷ hs) v = step digest b (steps bs hs v) h

  step-default : (s : Side) (c : Hash) → step_default digest s c ≡ step digest s c default
  step-default left c = refl
  step-default right c = refl

  steps-defaults :
      (n : ℕ) (it : List Side) (hs : List Hash) (v : Hash)
      → n ≤ length it
      → steps it (defaults n hs) v ≡ climb digest (take n it) (steps (drop n it) hs v)
  unfolding steps climb
  steps-defaults zero it hs v h = refl
  steps-defaults (suc n) [] hs v h = absurd (omega arith)
  steps-defaults (suc n) (s ∷ it) hs v h =
      rw (steps-defaults n it hs v (omega arith)) (sym (step-default s _))

  length-drop : (n : ℕ) (it : List Side) → length (drop n it) ≡ length it - n
  length-drop zero it = omega arith
  length-drop (suc n) [] = omega arith
  length-drop (suc n) (s ∷ it) = omega (arith, length-drop n it)

  rebuild-steps :
      (path : List (Hash × ℕ)) (it : List Side) (v : Hash)
      → bit_length path ≡ length it
      → rebuild digest path it v ≡ steps it (siblings path) v
  unfolding bit_length sum_lens rebuild steps
  rebuild-steps [] [] v h = refl
  rebuild-steps [] (s ∷ it) v h = refl
  rebuild-steps ((x, n) ∷ path) [] v h = refl
  rebuild-steps ((x, n) ∷ path) (s ∷ it) v h =
      rw
        (
          rebuild-steps path (drop n it) v (omega (arith, length-drop n it)),
          steps-defaults n it (siblings path) v (omega arith),
        )
        refl

  -- An accepted proof rebuilds the root.
  pub is_in-root :
      (p : PatriciaProof) (root : Hash)
      → IsHash p.claimed_key
      → is_in digest p root ≡ some true
      → (bit_length p.path ≡ 224)
        × (rebuild digest p.path (bits p.claimed_key) p.claimed_value ≡ root)
  unfolding is_in
  is_in-root p root hk e = elim (Bool-cases (bit_length p.path == 224)) [
    | inr short ↦ absurd (cc (rw short at e))
    | inl full ↦
        let l = (==_iff (bit_length p.path) 224).0 full in
        let sized : bit_length p.path ≡ length (bits p.claimed_key) =
          l ∙ sym (length-bits p.claimed_key ∙ ap (λ n. 8 * n) hk.sized) in
        let loop =
          ap (λ b. is_in_loop digest (reverse p.path) b p.claimed_value)
            (sym (append-nil (reverse (bits p.claimed_key))))
          ∙ is_in_loop-reverse digest p.path (bits p.claimed_key) [] p.claimed_value sized in
        (l, (hash_eq_iff _ _).0 (eq_of_some _ _ (rw (full, loop) at e)))
  ]

module _ (digest : List ℕ → Hash) (digest_sized : (x : List ℕ) → length (digest x) ≡ 28) where
  -- Hashes that are rehashed to the same value are the same, or collide.
  pub rehash_parts :
      (a b c d : Hash)
      → length b ≡ length d
      → rehash digest a b ≡ rehash digest c d
      → (a ≡ c) × (b ≡ d) ⊎ Collision digest
  rehash_parts a b c d h e = elim (Bool-cases (hash_eq (b ++ a) (d ++ c))) [
    | inl same ↦
        let (eb, ea) = append_parts b a d c h ((hash_eq_iff (b ++ a) (d ++ c)).0 same) in
        inl (ea, eb)
    | inr different ↦ inr record {
      first = b ++ a;
      second = d ++ c;
      different = λ eq. cc ((hash_eq_iff (b ++ a) (d ++ c)).1 eq);
      same = e;
    }
  ]

  step_value :
      (side : Side) (a b c d : Hash)
      → length a ≡ 28
      → length b ≡ 28
      → length c ≡ 28
      → length d ≡ 28
      → step digest side a b ≡ step digest side c d
      → (a ≡ c) ⊎ Collision digest
  step_value left a b c d ha hb hc hd e = elim (rehash_parts a b c d (hb ∙ sym hd) e) [
    | inl p ↦ inl p.0
    | inr x ↦ inr x
  ]
  step_value right a b c d ha hb hc hd e = elim (rehash_parts b a d c (ha ∙ sym hc) e) [
    | inl p ↦ inl p.1
    | inr x ↦ inr x
  ]

  steps_sized :
      (bs : List Side) (hs : List Hash) (v : Hash)
      → length v ≡ 28
      → length (steps digest bs hs v) ≡ 28
  unfolding steps
  steps_sized [] hs v h = h
  steps_sized (b ∷ bs) [] v h = h
  steps_sized (left ∷ bs) (x ∷ hs) v h = digest_sized _
  steps_sized (right ∷ bs) (x ∷ hs) v h = digest_sized _

  steps_binding :
      (bs : List Side) (hs hs' : List Hash) (v v' : Hash)
      → length v ≡ 28
      → length v' ≡ 28
      → Sized hs
      → Sized hs'
      → length hs ≡ length hs'
      → steps digest bs hs v ≡ steps digest bs hs' v'
      → (v ≡ v') ⊎ Collision digest
  unfolding steps
  steps_binding [] hs hs' v v' hv hv' s s' l e = inl e
  steps_binding (b ∷ bs) [] [] v v' hv hv' s s' l e = inl e
  steps_binding (b ∷ bs) [] (h' ∷ hs') v v' hv hv' s s' l e = absurd (omega arith)
  steps_binding (b ∷ bs) (h ∷ hs) [] v v' hv hv' s s' l e = absurd (omega arith)
  steps_binding (b ∷ bs) (h ∷ hs) (h' ∷ hs') v v' hv hv' s s' l e =
      elim (step_value b (steps digest bs hs v) h (steps digest bs hs' v') h'
        (steps_sized bs hs v hv) s.0 (steps_sized bs hs' v' hv') s'.0 e) [
          | inl below ↦ steps_binding bs hs hs' v v' hv hv' s.1 s'.1 (omega arith) below
          | inr x ↦ inr x
        ]

  -- Two proofs that `is_in` accepts for one root and one key claim the same value, or else two texts
  -- with one digest are known. All hashes have 28 bytes.
  pub is_in_binding :
      (p q : PatriciaProof) (root : Hash)
      → IsHash p.claimed_key
      → p.claimed_key ≡ q.claimed_key
      → length p.claimed_value ≡ 28
      → length q.claimed_value ≡ 28
      → AllSized p.path
      → AllSized q.path
      → is_in digest p root ≡ some true
      → is_in digest q root ≡ some true
      → (p.claimed_value ≡ q.claimed_value) ⊎ Collision digest
  is_in_binding p q root hk ek hp hq sp sq ep eq =
      let (lp, rp) = is_in-root digest p root hk ep in
      let (lq, rq) = is_in-root digest q root (rw ek at hk) eq in
      let sized = length-bits p.claimed_key ∙ ap (λ n. 8 * n) hk.sized in
      steps_binding (bits p.claimed_key) (siblings p.path) (siblings q.path) p.claimed_value
        q.claimed_value hp hq (siblings-Sized p.path sp) (siblings-Sized q.path sq)
        (length-siblings p.path ∙ lp ∙ sym (length-siblings q.path ∙ lq))
        (sym (rebuild-steps digest p.path (bits p.claimed_key) p.claimed_value (lp ∙ sym sized))
          ∙ rp
          ∙ sym rq
          ∙ ap (λ k. rebuild digest q.path (bits k) q.claimed_value) (sym ek)
          ∙ rebuild-steps digest q.path (bits p.claimed_key) q.claimed_value (lq ∙ sym sized))

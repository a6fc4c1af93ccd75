-- ===== src/Merkle/Accepts.antt =====
-- What `Hash::is_proved_by` accepts: its loop compares each hash of the path with the hash that it
-- has just computed from it, so that a path can only hold fixed points of the rehashing.
use Prim.Native.Nat.{bit_and}
use samizdat.Prelude.{
  ℕ, zero, suc, ◌/◌, ◌*◌, ◌%◌, ◌^◌, ◌≤◌, ◌<◌, ◌≡◌, ◌≢◌, refl, ap, sym, ◌∙◌, true, false, not, List,
  [], ◌∷◌, some, arith, Bool-cases, inl, inr, ◌⊎◌, ◌==◌, if◌then◌else◌, length, eq_of_some,
}
use samizdat.Hash.{Hash, default, rehash, hash_eq, hash_eq_iff}
use samizdat.Merkle.{
  InclusionProof, from_leaves, proof_for, proof_path, sibling, flip_low, is_proved_loop,
  is_proved_by, proves,
}
use samizdat.Merkle.Levels.{from_leaves-Built, proof_for_inside}

module _ (digest : List ℕ → Hash) where
  -- Each hash of the path is a rehashing of itself and the one before it; the root is the last.
  abbrev pub FixedPoints : Hash → List Hash → Hash → Type 0
  FixedPoints current [] root_value = current ≡ root_value
  FixedPoints current (hash ∷ path) root_value =
      ((hash ≡ rehash digest hash current) ⊎ (hash ≡ rehash digest current hash))
      × FixedPoints hash path root_value

  is_proved_loop-FixedPoints :
      (root_value : Hash) (index : ℕ) (path : List Hash) (mask : ℕ) (current : Hash)
      → is_proved_loop digest root_value index path mask current ≡ true
      → FixedPoints current path root_value
  unfolding is_proved_loop
  is_proved_loop-FixedPoints r index [] mask current h = (hash_eq_iff current r).0 h
  is_proved_loop-FixedPoints r index (hash ∷ path) mask current h =
      elim (Bool-cases (not (bit_and index mask == 0))) [
        | inl e ↦
            round _ (λ p. inl p) (rw e at h)
              (is_proved_loop-FixedPoints r index path ((2 * mask) % 2 ^ 64) hash)
        | inr e ↦
            round _ (λ p. inr p) (rw e at h)
              (is_proved_loop-FixedPoints r index path ((2 * mask) % 2 ^ 64) hash)
      ]
    where
      round :
          (next : Hash)
          → (hash ≡ next
              → (hash ≡ rehash digest hash current) ⊎ (hash ≡ rehash digest current hash))
          → (if not (hash_eq hash next)
              then false
              else is_proved_loop digest r index path ((2 * mask) % 2 ^ 64) next)
            ≡ true
          → (is_proved_loop digest r index path ((2 * mask) % 2 ^ 64) hash ≡ true
              → FixedPoints hash path r)
          → FixedPoints current (hash ∷ path) r
      round next side k ih = elim (Bool-cases (hash_eq hash next)) [
        | inl same ↦
            let e = (hash_eq_iff hash next).0 same in (side e, ih (rw (← e) at (rw same at k)))
        | inr different ↦ absurd (cc (rw different at k))
      ]

  -- If `is_proved_by` accepts, then every hash of the path is a rehashing of itself and the hash before
  -- it, where the value itself stands before the first, and the root is the last of these hashes.
  pub is_proved_by-FixedPoints :
      (self root_value : Hash) (proof : InclusionProof)
      → is_proved_by digest self root_value proof ≡ true
      → FixedPoints self proof.path root_value
  unfolding is_proved_by
  is_proved_by-FixedPoints self root_value proof h =
      is_proved_loop-FixedPoints root_value proof.index proof.path 1 self h

  sibling-root :
      (top : Hash) (index : ℕ) → index ≢ 1 → sibling (top ∷ []) (flip_low index) ≡ default
  sibling-root top index h = past (flip_low index) (ground arith)
    where
      past : (i : ℕ) → i ≢ 0 → sibling (top ∷ []) i ≡ default
      past zero n = absurd (n refl)
      past (suc i) n = refl

  -- If a proof that a tree of at least one leaf gives for an index other than 1, and not above the number
  -- of leaves, is accepted for some root and some value, then its path starts with the default hash,
  -- and the default hash is a digest.
  pub proves-proof_for :
      (leaves : List Hash) (index : ℕ) (proof : InclusionProof) (root_value self : Hash)
      → 0 < length leaves
      → index ≤ length leaves
      → index ≢ 1
      → proof_for (from_leaves digest leaves) index ≡ some (some proof)
      → proves digest proof root_value self ≡ true
      → ((rest : List Hash) × (proof.path ≡ default ∷ rest)) × ((x : List ℕ) × (default ≡ digest x))
  unfolding proves proof_path
  proves-proof_for leaves index proof root_value self h inside other e accepted =
      let b = from_leaves-Built digest leaves h in
      let given : proof.path ≡ proof_path (from_leaves digest leaves).tree index =
        ap (λ p. p.path)
          (sym (
            eq_of_some _ _
              (eq_of_some _ _ (sym (proof_for_inside digest leaves index h inside) ∙ e)))) in
      let first =
        given
        ∙ ap (λ t. proof_path t index) b.shape
        ∙ ap (λ x. x ∷ proof_path b.rest (index / 2)) (sibling-root b.top index other) in
      (
        (proof_path b.rest (index / 2), first),
        head_fixed (proof_path b.rest (index / 2))
            (rw first at (is_proved_by-FixedPoints self root_value proof accepted)),
      )
    where
      head_fixed :
          (rest : List Hash)
          → FixedPoints self (default ∷ rest) root_value
          → (x : List ℕ) × (default ≡ digest x)
      head_fixed rest f = elim f.0 [ inl p ↦ (_, p) | inr p ↦ (_, p) ]

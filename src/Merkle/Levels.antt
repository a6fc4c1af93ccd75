-- ===== src/Merkle/Levels.antt =====
-- The levels of a tree that is built from leaves.
use mathlib.Core.List.{reverse-append}
use samizdat.Prelude.{
  ◌↔◌, ◌⊎◌, ℕ, zero, suc, ◌+◌, ◌/◌, ◌≤◌, ◌<◌, ◌≡◌, refl, ap, ◌∙◌, List, [], ◌∷◌, ◌++◌, none, some,
  arith, inl, inr, lt→ltb, le→not_ltb, length, reverse, reverse-cons,
}
use samizdat.Hash.{Hash}
use samizdat.Merkle.{
  last_level, hashes, len, root, iterate_level, successors, from_leaves, proof_for, proof_path,
  InclusionProof,
}

last_level-snoc :
    (levels : List (List Hash)) (level : List Hash) → last_level (levels ++ level ∷ []) ≡ some level
unfolding last_level
last_level-snoc [] level = refl
last_level-snoc (x ∷ []) level = refl
last_level-snoc (x ∷ y ∷ levels) level = last_level-snoc (y ∷ levels) level

≤_cases : (a b : ℕ) → (a ≤ b) ⊎ (b < a)
≤_cases a b = omega arith

module _ (digest : List ℕ → Hash) where
  -- A level has half as many hashes as the one below it, rounded up.
  pub length-iterate_level :
      (level : List Hash) → length (iterate_level digest level) ≡ (length level + 1) / 2
  unfolding iterate_level
  length-iterate_level [] = refl
  length-iterate_level (single ∷ []) = refl
  length-iterate_level (l ∷ r ∷ level) = omega (arith, length-iterate_level level)

  -- The top of the levels: with enough fuel it is one hash.
  successors_top :
      (fuel : ℕ) (level : List Hash)
      → 0 < length level
      → length level ≤ suc fuel
      → (top : Hash) × (below : List (List Hash)) × (successors digest fuel level
          ≡ below ++ (top ∷ []) ∷ [])
  unfolding successors
  successors_top zero [] h k = absurd (omega arith)
  successors_top zero (x ∷ []) h k = (x, [], refl)
  successors_top zero (x ∷ y ∷ level) h k = absurd (omega arith)
  successors_top (suc fuel) [] h k = absurd (omega arith)
  successors_top (suc fuel) (x ∷ []) h k = (x, [], refl)
  successors_top (suc fuel) (x ∷ y ∷ level) h k =
      let (top, below, e) =
        successors_top fuel (iterate_level digest (x ∷ y ∷ level))
          (omega (arith, length-iterate_level (x ∷ y ∷ level)))
          (omega (arith, length-iterate_level (x ∷ y ∷ level))) in
      (top, (x ∷ y ∷ level) ∷ below, rw (lt→ltb 1 (length (x ∷ y ∷ level)) (omega arith), e) refl)

  successors_bottom :
      (fuel : ℕ) (level : List Hash)
      → (above : List (List Hash)) × (successors digest fuel level ≡ level ∷ above)
  unfolding successors
  successors_bottom zero level = ([], refl)
  successors_bottom (suc fuel) level = (_, refl)

  -- What `from` builds from leaves.
  pub record Built (leaves : List Hash) : Type 0 where
    pub top : Hash
    pub rest : List (List Hash)
    pub shape : (from_leaves digest leaves).tree ≡ (top ∷ []) ∷ rest
    pub bottom : last_level (from_leaves digest leaves).tree ≡ some leaves

  pub from_leaves-Built : (leaves : List Hash) → 0 < length leaves → Built leaves
  unfolding from_leaves
  from_leaves-Built leaves h =
      let (top, below, e) = successors_top (length leaves) leaves h (omega arith) in
      let (above, b) = successors_bottom (length leaves) leaves in
      record {
        top = top;
        rest = reverse below;
        shape = ap reverse e ∙ reverse-append below ((top ∷ []) ∷ []);
        bottom =
            ap last_level (ap reverse b ∙ reverse-cons leaves above)
            ∙ last_level-snoc (reverse above) leaves;
      }

  -- A tree from at least one leaf has a root, and gives its leaves and their number back.
  pub from_leaves_lem :
      (leaves : List Hash)
      → 0 < length leaves
      → ((top : Hash) × (root (from_leaves digest leaves) ≡ some top))
        × (hashes (from_leaves digest leaves) ≡ some leaves)
        × (len (from_leaves digest leaves) ≡ some (length leaves))
  unfolding root hashes len
  from_leaves_lem leaves h =
      let b = from_leaves-Built leaves h in ((b.top, rw b.shape refl), b.bottom, rw b.bottom refl)

  pub proof_for_inside :
      (leaves : List Hash) (index : ℕ)
      → 0 < length leaves
      → index ≤ length leaves
      → proof_for (from_leaves digest leaves) index
        ≡ some (
            some
              (record { path = proof_path (from_leaves digest leaves).tree index; index = index }))
  unfolding proof_for
  proof_for_inside leaves index h inside =
      let (_, _, l) = from_leaves_lem leaves h in
      rw l (rw (le→not_ltb (length leaves) index inside) refl)

  proof_for_outside :
      (leaves : List Hash) (index : ℕ)
      → 0 < length leaves
      → length leaves < index
      → proof_for (from_leaves digest leaves) index ≡ some none
  unfolding proof_for
  proof_for_outside leaves index h outside =
      let (_, _, l) = from_leaves_lem leaves h in
      rw l (rw (lt→ltb (length leaves) index outside) refl)

  -- On a tree from at least one leaf `proof_for` gives a proof exactly for the indices up to and
  -- including the number of leaves, one past the last leaf, and `None` exactly for those beyond.
  pub proof_for_range :
      (leaves : List Hash) (index : ℕ)
      → 0 < length leaves
      → ((index ≤ length leaves) ↔ (
          (proof : InclusionProof) × (proof_for (from_leaves digest leaves) index
            ≡ some (some proof))))
        × ((length leaves < index) ↔ (proof_for (from_leaves digest leaves) index ≡ some none))
  proof_for_range leaves index h =
      let inside = proof_for_inside leaves index h in
      let outside = proof_for_outside leaves index h in
      (
        (
          λ le. (_, inside le),
          λ (proof, e). elim (≤_cases index (length leaves)) [
            | inl le ↦ le
            | inr lt ↦ absurd (cc (e, outside lt))
          ],
        ),
        (
          outside,
          λ e. elim (≤_cases index (length leaves)) [
            | inl le ↦ absurd (cc (e, inside le))
            | inr lt ↦ lt
          ],
        ),
      )

-- ===== src/Identity/Search.antt =====
-- The search for a proof of work: it ends, and with enough work.
use samizdat.Prelude.{
  ℕ, ◌≤◌, ◌≡◌, refl, sym, ◌∙◌, ap, arith, inl, inr, Bool-cases, ltb, le→not_ltb, List, [], ◌∷◌,
  ◌++◌, Option, some, eq_of_some,
}
use samizdat.Codec.{Codec}
use samizdat.Hash.{Hash}
use samizdat.Bookmark.{Bincode}
use samizdat.Identity.{ProofOfWork, Identity, work_done, better_proof, forge_loop}

module _ (digest : List ℕ → Hash) (codec : Codec Identity) (bincode : Bincode) (work : Hash → ℕ)
    (minimum_work_done : ℕ) where
  abbrev pub effort : ProofOfWork → ℕ
  effort = work_done digest codec bincode work minimum_work_done

  abbrev pub search : ℕ → ProofOfWork → List Hash → Option ProofOfWork
  search = forge_loop digest codec bincode work minimum_work_done

  abbrev pub better : ProofOfWork → Hash → ProofOfWork
  better = better_proof digest codec bincode work minimum_work_done

  better-effort :
      (proof : ProofOfWork) (solution : Hash)
      → (effort (record proof { solution = solution }) ≤ effort (better proof solution))
        × ((better proof solution).information ≡ proof.information)
  better-effort proof solution =
      elim (Bool-cases (ltb (effort proof) (effort (record proof { solution = solution })))) [
        | inl h ↦ rw h (omega arith, refl)
        | inr h ↦ rw h (ground arith, refl)
      ]

  search_done :
      (target : ℕ) (proof : ProofOfWork) (solutions : List Hash)
      → target ≤ effort proof
      → search target proof solutions ≡ some proof
  unfolding forge_loop
  search_done target proof [] h = rw (le→not_ltb (effort proof) target h) refl
  search_done target proof (s ∷ solutions) h = rw (le→not_ltb (effort proof) target h) refl

  pub search_enough :
      (target : ℕ) (proof : ProofOfWork) (solutions : List Hash) (result : ProofOfWork)
      → search target proof solutions ≡ some result
      → (target ≤ effort result) × (result.information ≡ proof.information)
  unfolding forge_loop
  search_enough target proof [] result h = elim (Bool-cases (ltb (effort proof) target)) [
    | inl e ↦ absurd (cc (rw e at h))
    | inr e ↦
        let same = eq_of_some proof result (rw e at h) in
        (rw (sym same) (ground arith), ap (λ p. p.information) (sym same))
  ]
  search_enough target proof (s ∷ solutions) result h =
      elim (Bool-cases (ltb (effort proof) target)) [
        | inl e ↦
            let more = search_enough target (better proof s) solutions result (rw e at h) in
            (more.0, more.1 ∙ (better-effort proof s).1)
        | inr e ↦
            let same = eq_of_some proof result (rw e at h) in
            (rw (sym same) (ground arith), ap (λ p. p.information) (sym same))
      ]

  pub search_ends :
      (target : ℕ) (proof : ProofOfWork) (before : List Hash) (solution : Hash) (after : List Hash)
      → target ≤ effort (record proof { solution = solution })
      → (result : ProofOfWork) × (search target proof (before ++ solution ∷ after) ≡ some result)
  unfolding forge_loop
  search_ends target proof [] solution after h = elim (Bool-cases (ltb (effort proof) target)) [
    | inl e ↦ (
      better proof solution,
      rw e (
          search_done target (better proof solution) after
            (omega (arith, h, (better-effort proof solution).0))),
    )
    | inr e ↦ (proof, rw e refl)
  ]
  search_ends target proof (s ∷ before) solution after h =
      elim (Bool-cases (ltb (effort proof) target)) [
        | inl e ↦
            let (result, run) = search_ends target (better proof s) before solution after (
              omega
                (arith, h, ap (λ i. work (digest (solution ++ i))) (better-effort proof s).1)) in
            (result, rw e run)
        | inr e ↦ (proof, rw e refl)
      ]

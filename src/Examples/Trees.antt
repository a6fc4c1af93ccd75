-- ===== src/Examples/Trees.antt =====
-- Merkle trees of three leaves.
use samizdat.Prelude.{ℕ, ◌↔◌, ◌≡◌, refl, ◌≤◌, ◌<◌, true, List, [], ◌∷◌, none, some, arith}
use samizdat.Hash.{Hash, default, hash_eq}
use samizdat.Merkle.{
  InclusionProof, from_leaves, root, proof_for, proof_path, is_proved_by, is_proved_loop,
  successors, proves,
}
use samizdat.Merkle.Levels.{proof_for_range, proof_for_inside}
use samizdat.Merkle.Accepts.{proves-proof_for}
use samizdat.Examples.{key_of, toy, constant}

abbrev leaves : List Hash
leaves = key_of 1 ∷ key_of 2 ∷ key_of 3 ∷ []

abbrev accepted : InclusionProof
accepted = record { path = default ∷ default ∷ []; index = 1 }

accepted-is_proved_by : is_proved_by constant (key_of 1) default accepted ≡ true
unfolding is_proved_by is_proved_loop hash_eq
accepted-is_proved_by = refl

abbrev given : InclusionProof
given = record { path = proof_path (from_leaves constant (default ∷ [])).tree 0; index = 0 }

given-proves : proves constant given default default ≡ true
unfolding proves is_proved_by is_proved_loop hash_eq proof_path from_leaves successors
given-proves = refl

proves-proof_for_example :
    ((rest : List Hash) × (given.path ≡ default ∷ rest)) × ((x : List ℕ) × (default ≡ constant x))
proves-proof_for_example =
    proves-proof_for constant (default ∷ []) 0 given default default (omega arith) (omega arith)
      (λ e. cc) (proof_for_inside constant (default ∷ []) 0 (omega arith) (omega arith))
      given-proves

proof_for_range_example :
    ((3 ≤ 3)
      ↔ ((proof : InclusionProof) × (proof_for (from_leaves toy leaves) 3 ≡ some (some proof))))
    × ((3 < 3) ↔ (proof_for (from_leaves toy leaves) 3 ≡ some none))
proof_for_range_example = proof_for_range toy leaves 3 (omega arith)

-- `root` of a tree that is built from no leaves panics.
root-no_leaves : root (from_leaves toy []) ≡ none
unfolding root from_leaves successors
root-no_leaves = refl

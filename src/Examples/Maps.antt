-- ===== src/Examples/Maps.antt =====
-- Patricia maps: a map with one entry, its proofs, and two proofs that collide.
use samizdat.Prelude.{◌≡◌, ◌⊎◌, refl, true, List, [], ◌∷◌, Option, none, some, arith}
use samizdat.Hash.{Hash, IsHash, default, hash_eq}
use samizdat.Patricia.Segment.{bits, byte_bits}
use samizdat.Patricia.Proof.{PatriciaProof, is_in, bit_length, sum_lens, is_in_loop, is_in_segment}
use samizdat.Patricia.Proof.Binding.{Collision, is_in_binding}
use samizdat.Patricia.Map.{PatriciaMap, new, insert, from_iter, proof_for}
use samizdat.Patricia.Map.Laws.{
  IsValid, lookup, Inserted, Says, AllKeys, replay, new-IsValid, insert-Inserted, proof_for-Says,
  from_iter-replay,
}
use samizdat.Examples.{key_of, key_of-IsHash, toy, constant}

one_entry : Inserted toy new (key_of 5) (key_of 9) (insert toy new (key_of 5) (key_of 9))
one_entry =
    insert-Inserted toy new (key_of 5) (key_of 9) (new-IsValid toy) (key_of-IsHash 5 (omega arith))

insert-Inserted_example :
    Inserted toy one_entry.result
      (key_of 6)
      (key_of 8)
      (insert toy one_entry.result (key_of 6) (key_of 8))
insert-Inserted_example =
    insert-Inserted toy one_entry.result (key_of 6) (key_of 8) one_entry.valid
      (key_of-IsHash 6 (omega arith))

proof_for-Says_example :
    (found : Option PatriciaProof) × (proof_for toy one_entry.result (key_of 5) ≡ some found)
    × Says toy one_entry.result (key_of 5) found
proof_for-Says_example =
    proof_for-Says toy one_entry.result (key_of 5) one_entry.valid (key_of-IsHash 5 (omega arith))

abbrev entries : List (Hash × Hash)
entries = (key_of 5, key_of 9) ∷ (key_of 6, key_of 8) ∷ (key_of 5, key_of 7) ∷ []

entries-AllKeys : AllKeys toy entries
entries-AllKeys =
    let five = key_of-IsHash 5 (omega arith) in
    let six = key_of-IsHash 6 (omega arith) in (five, (six, (five, tt)))

from_iter-replay_example :
    (m : PatriciaMap) × (from_iter toy entries ≡ some m)
    × IsValid toy m
    × ((k : Hash) → IsHash k → lookup m k ≡ replay toy entries (λ _. none) k)
from_iter-replay_example = from_iter-replay toy entries entries-AllKeys

abbrev claims : Hash → PatriciaProof
claims value = record { claimed_key = key_of 5; claimed_value = value; path = (default, 223) ∷ [] }

claims-is_in : (value : Hash) → is_in constant (claims value) default ≡ some true
unfolding is_in bit_length sum_lens is_in_loop is_in_segment bits byte_bits hash_eq
claims-is_in value = refl

is_in_binding_example : (key_of 1 ≡ key_of 2) ⊎ Collision constant
is_in_binding_example =
    is_in_binding constant (λ x. refl) (claims (key_of 1)) (claims (key_of 2)) default
      (key_of-IsHash 5 (omega arith)) refl refl refl (refl, tt) (refl, tt) (claims-is_in (key_of 1))
      (claims-is_in (key_of 2))

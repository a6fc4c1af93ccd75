-- ===== src/Patricia/Map.antt =====
-- common/src/patricia_map.rs: `PatriciaMap`. A method that changes the map returns the new map; the
-- outer `none` is a panic.
pub mod Laws
use samizdat.Prelude.{ℕ, false, List, [], ◌∷◌, Option, none, some, ◌>>=◌}
use samizdat.Hash.{Hash, default}
use samizdat.Patricia.Segment.{Side, bits}
use samizdat.Patricia.Tree.{
  Node, node, no_child, node_hash, mark_stale, insert_node, update_node, prove_node,
}
use samizdat.Patricia.Proof.{PatriciaProof, next_side}

pub record PatriciaMap : Type 0 where
  pub root : Node

-- `PatriciaMap::default()`
abbrev pub new : PatriciaMap
new = record { root = node default false no_child no_child }

-- `PatriciaMap::root`
abbrev pub root_hash : PatriciaMap → Hash
root_hash m = node_hash m.root

module _ (digest : List ℕ → Hash) where
  unfoldable pub insert : PatriciaMap → Hash → Hash → Option (PatriciaMap × Option Hash)
  insert m key value = do
    (side, it) ← next_side (bits key)
    (root, old) ← insert_node m.root side it value
    some (record { root = update_node digest (mark_stale root) }, old)

  -- `FromIterator::from_iter`, from the map `m` on.
  unfoldable pub extend : PatriciaMap → List (Hash × Hash) → Option PatriciaMap
  extend m [] = some m
  extend m ((key, value) ∷ it) = do (m', old) ← insert m key value; extend m' it

  unfoldable pub from_iter : List (Hash × Hash) → Option PatriciaMap
  from_iter it = extend new it

  unfoldable pub proof_for : PatriciaMap → Hash → Option (Option PatriciaProof)
  proof_for m key = do
    (side, it) ← next_side (bits key)
    found ← prove_node digest m.root side it
    some (elim found [
      | none ↦ none
      | some (path, value) ↦ some (record { claimed_key = key; claimed_value = value; path = path })
    ])

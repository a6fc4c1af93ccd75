-- ===== src/Patricia/Tree/Shape.antt =====
-- The abstract view of a subtree: a function from the bits that are left of a key to a value. And the
-- invariant of its shape: every leaf stands at the same depth.
use samizdat.Prelude.{ℕ, zero, suc, ◌+◌, ◌≡◌, refl, List, [], ◌∷◌, Option, none, some, length}
use samizdat.Hash.{Hash}
use samizdat.Patricia.Segment.{Side, left, right, segment_bits}
use samizdat.Patricia.Segment.Follow.{strip}
use samizdat.Patricia.Tree.{
  Node, MaybeChild, node, no_child, child, node_hash, mark_stale, overwrite,
}

-- Behind a segment: the value of a leaf where the key ends, or the next side.
abbrev pub behind : Option (List Side) → Hash → (Side → List Side → Option Hash) → Option Hash
behind none value next = none
behind (some []) value next = some value
behind (some (side ∷ rest)) value next = next side rest

unfoldable mutual
  pub value_node : Node → Side → List Side → Option Hash
  value_node (node h u l r) left it = value_child l it
  value_node (node h u l r) right it = value_child r it

  pub value_child : MaybeChild → List Side → Option Hash
  value_child no_child it = none
  value_child (child segment next) it =
      behind (strip (segment_bits segment) it) (node_hash next)
        (λ side rest. value_node next side rest)

-- `n` bits are read below this node, or at and below this child.
unfoldable mutual
  pub WfNode : ℕ → Node → Type 0
  WfNode zero (node h u l r) = (l ≡ no_child) × (r ≡ no_child)
  WfNode (suc n) (node h u l r) = WfChild n l × WfChild n r

  pub WfChild : ℕ → MaybeChild → Type 0
  WfChild n no_child = Unit
  WfChild n (child segment next) =
      (m : ℕ) × (length (segment_bits segment) + m ≡ n)
      × (segment.len ≡ length (segment_bits segment))
      × WfNode m next

-- The flag and the hash do not show in the shape, nor the flag in the values.
pub mark_stale-WfNode : (n : ℕ) (nd : Node) → WfNode n nd → WfNode n (mark_stale nd)
unfolding WfNode
mark_stale-WfNode zero (node h u l r) w = w
mark_stale-WfNode (suc n) (node h u l r) w = w

pub overwrite-WfNode : (n : ℕ) (nd : Node) (v : Hash) → WfNode n nd → WfNode n (overwrite nd v)
unfolding WfNode
overwrite-WfNode zero (node h u l r) v w = w
overwrite-WfNode (suc n) (node h u l r) v w = w

pub value_node-mark_stale :
    (nd : Node) (side : Side) (it : List Side)
    → value_node (mark_stale nd) side it ≡ value_node nd side it
unfolding value_node
value_node-mark_stale (node h u l r) left it = refl
value_node-mark_stale (node h u l r) right it = refl

pub hash-overwrite : (nd : Node) (v : Hash) → node_hash (overwrite nd v) ≡ v
hash-overwrite (node h u l r) v = refl

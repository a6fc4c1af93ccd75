-- ===== src/Patricia/Tree.antt =====
-- common/src/patricia_map.rs: `Node`, `Child` and the loops of `PatriciaMap` that walk them. A box
-- and a mutable borrow leave no trace: a loop that changes nodes on its way down is a recursion that
-- rebuilds them. `none` is a panic.
pub mod Shape
pub mod Insert
pub mod Update
pub mod Keep
pub mod Prove
use samizdat.Prelude.{ℕ, Bool, true, false, List, [], ◌∷◌, Option, none, some, ◌>>=◌, reverse}
use samizdat.Hash.{Hash, default, rehash}
use samizdat.Patricia.Segment.{
  Side, left, right, Segment, FollowStatus, split, follow_node, found_leaf, from_bits, segment_bits,
  follow, split_at,
}

-- `Option<Child>` is `MaybeChild`. Outside of the swap in `insert` a child's `next` is never `None`.
mutual
  pub data Node : Type 0 where
    node : (hash : Hash) (is_up_to_date : Bool) (left_child right_child : MaybeChild) → Node

  pub data MaybeChild : Type 0 where
    no_child : MaybeChild
    child : Segment → Node → MaybeChild

abbrev pub node_hash : Node → Hash
node_hash (node h u l r) = h

abbrev pub leaf : Hash → Node
leaf h = node h false no_child no_child

-- `next.is_up_to_date = false`
abbrev pub mark_stale : Node → Node
mark_stale (node h u l r) = node h false l r

-- `next.hash = value; next.is_up_to_date = false`
abbrev pub overwrite : Node → Hash → Node
overwrite (node h u l r) value = node value false l r

abbrev pub get_child : Node → Side → MaybeChild
get_child (node h u l r) left = l
get_child (node h u l r) right = r

-- The two children in the order of the array, the new one on `side`.
abbrev pub fork : Side → MaybeChild → MaybeChild → Node
fork left fresh old = node default false fresh old
fork right fresh old = node default false old fresh

-- The arm `FollowStatus::Split`.
unfoldable pub split_child :
    Segment → Node → Side → ℕ → List Side → Hash → Option (MaybeChild × Option Hash)
split_child segment next side position it value = do
  (prefix, suffix) ← split_at segment position
  leaf_segment ← from_bits it
  some (child prefix (fork side (child leaf_segment (leaf value)) (child suffix next)), none)

-- The `match` on the status: `descend` is the next round of the loop, at `next`.
unfoldable pub insert_status :
    Segment
    → Node
    → Hash
    → (Side → List Side → Option (Node × Option Hash))
    → FollowStatus × List Side
    → Option (MaybeChild × Option Hash)
insert_status segment next value descend (follow_node side, it) = do
  (next', old) ← descend side it
  some (child segment (mark_stale next'), old)
insert_status segment next value descend (split side position, it) =
    split_child segment next side position it value
insert_status segment next value descend (found_leaf, it) =
    some (child segment (overwrite next value), some (node_hash next))

-- One round of the loop of `PatriciaMap::insert`, at a node with its `next_side`.
unfoldable mutual
  pub insert_node : Node → Side → List Side → Hash → Option (Node × Option Hash)
  insert_node (node h u l r) left it value = do
    (l', old) ← insert_child l it value
    some (node h u l' r, old)
  insert_node (node h u l r) right it value = do
    (r', old) ← insert_child r it value
    some (node h u l r', old)

  pub insert_child : MaybeChild → List Side → Hash → Option (MaybeChild × Option Hash)
  insert_child no_child it value = do
    segment ← from_bits it
    some (child segment (leaf value), none)
  insert_child (child segment next) it value =
      follow segment it
      >>= insert_status segment next value (λ side rest. insert_node next side rest value)

-- What the walk of `proof_for` collects: its path and the leaf's hash.
abbrev pub PathAndValue : Type 0
PathAndValue = List (Hash × ℕ) × Hash

module _ (digest : List ℕ → Hash) where
  -- One bit of a segment: the other side is the default hash.
  abbrev pub step_default : Side → Hash → Hash
  step_default left current = rehash digest current default
  step_default right current = rehash digest default current

  -- The loop of `Child::hash`.
  unfoldable pub climb_loop : List Side → Hash → Hash
  climb_loop [] current = current
  climb_loop (side ∷ it) current = climb_loop it (step_default side current)

  -- `Child::hash`, and `unwrap_or_default` for a missing child.
  unfoldable pub child_hash : MaybeChild → Hash
  child_hash no_child = default
  child_hash (child segment next) = climb_loop (reverse (segment_bits segment)) (node_hash next)

  abbrev pub refreshed : MaybeChild → MaybeChild → Node
  refreshed l r = node (rehash digest (child_hash l) (child_hash r)) true l r

  -- `Node::update` and `Child::update`.
  unfoldable mutual
    pub update_node : Node → Node
    update_node (node h true l r) = node h true l r
    update_node (node h false no_child no_child) = node h true no_child no_child
    update_node (node h false (child s n) r) = refreshed (update_child (child s n)) (update_child r)
    update_node (node h false no_child (child s n)) = refreshed no_child (update_child (child s n))

    pub update_child : MaybeChild → MaybeChild
    update_child no_child = no_child
    update_child (child segment next) = child segment (update_node next)

  -- The `match` on the status in `proof_for`: the inner `none` is `break None`.
  unfoldable pub prove_status :
      Hash
      → Segment
      → Node
      → (Side → List Side → Option (Option PathAndValue))
      → FollowStatus × List Side
      → Option (Option PathAndValue)
  prove_status sibling segment next descend (follow_node side, it) = do
    found ← descend side it
    some (elim found [
      | none ↦ none
      | some (path, value) ↦ some ((sibling, segment.len) ∷ path, value)
    ])
  prove_status sibling segment next descend (split side position, it) = some none
  prove_status sibling segment next descend (found_leaf, it) =
      some (some ((sibling, segment.len) ∷ [], node_hash next))

  -- One round of the loop of `PatriciaMap::proof_for`. The path is pushed from the root down.
  unfoldable mutual
    pub prove_node : Node → Side → List Side → Option (Option PathAndValue)
    prove_node (node h u l r) left it = prove_child l (child_hash r) it
    prove_node (node h u l r) right it = prove_child r (child_hash l) it

    pub prove_child : MaybeChild → Hash → List Side → Option (Option PathAndValue)
    prove_child no_child sibling it = some none
    prove_child (child segment next) sibling it =
        follow segment it
        >>= prove_status sibling segment next (λ side rest. prove_node next side rest)

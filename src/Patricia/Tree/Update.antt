-- ===== src/Patricia/Tree/Update.antt =====
-- `Node::update`: the cached hashes. A node is fresh if it and all below it hold the hashes of their
-- children. `insert` leaves no flag set above a change, so `update` may skip a flagged node.
use samizdat.Prelude.{ℕ, ◌≡◌, refl, true, false, List, Option, none, some, ◌>>=◌}
use samizdat.Hash.{Hash, rehash}
use samizdat.Patricia.Segment.{
  Side, left, right, Segment, FollowStatus, split, follow_node, found_leaf, from_bits, split_at,
  follow,
}
use samizdat.Patricia.Tree.{
  Node, MaybeChild, node, no_child, child, leaf, fork, mark_stale, insert_node, insert_child,
  insert_status, split_child, child_hash, update_node, update_child,
}

module _ (digest : List ℕ → Hash) where
  -- The hash that a node should hold; a leaf holds its value.
  abbrev pub own_hash : Hash → MaybeChild → MaybeChild → Hash
  own_hash h no_child no_child = h
  own_hash h (child s n) r = rehash digest (child_hash digest (child s n)) (child_hash digest r)
  own_hash h no_child (child s n) =
      rehash digest (child_hash digest no_child) (child_hash digest (child s n))

  unfoldable mutual
    pub FreshNode : Node → Type 0
    FreshNode (node h u l r) = (h ≡ own_hash h l r) × FreshChild l × FreshChild r

    pub FreshChild : MaybeChild → Type 0
    FreshChild no_child = Unit
    FreshChild (child s next) = FreshNode next

  -- What holds between operations below a node: a flag is set only over fresh nodes.
  unfoldable mutual
    pub CoherentNode : Node → Type 0
    CoherentNode (node h u l r) =
        (u ≡ true → FreshNode (node h u l r)) × CoherentChild l × CoherentChild r

    pub CoherentChild : MaybeChild → Type 0
    CoherentChild no_child = Unit
    CoherentChild (child s next) = CoherentNode next

  -- After `update` all hashes below are up to date.
  mutual
    unfolding update_node CoherentNode FreshNode

    pub update_node-FreshNode : (nd : Node) → CoherentNode nd → FreshNode (update_node digest nd)
    update_node-FreshNode (node h true l r) c = c.0 refl
    update_node-FreshNode (node h false no_child no_child) c = (refl, tt, tt)
    update_node-FreshNode (node h false (child s n) r) c =
        (refl, update_node-FreshNode n c.1, update_child-FreshChild r c.2)
    update_node-FreshNode (node h false no_child (child s n)) c =
        (refl, tt, update_node-FreshNode n c.2)

    pub update_child-FreshChild :
        (c : MaybeChild) → CoherentChild c → FreshChild (update_child digest c)
    update_child-FreshChild no_child h = tt
    update_child-FreshChild (child s next) h = update_node-FreshNode next h

  -- A fresh node is coherent.
  mutual
    unfolding FreshNode CoherentNode

    coherent_of_fresh : (nd : Node) → FreshNode nd → CoherentNode nd
    coherent_of_fresh (node h u l r) f =
        (λ e. f, CoherentChild-of_fresh l f.1, CoherentChild-of_fresh r f.2)

    CoherentChild-of_fresh : (c : MaybeChild) → FreshChild c → CoherentChild c
    CoherentChild-of_fresh no_child f = tt
    CoherentChild-of_fresh (child s next) f = coherent_of_fresh next f

  pub FreshNode-CoherentNode : (nd : Node) → FreshNode nd → CoherentNode nd
  FreshNode-CoherentNode nd f = coherent_of_fresh nd f

  -- `insert` below the root keeps the nodes coherent, once the flag of the node itself is taken off.
  abbrev CoherentOutcome : Option (MaybeChild × Option Hash) → Type 0
  CoherentOutcome none = Unit
  CoherentOutcome (some (c, old)) = CoherentChild c

  abbrev CoherentNodeOutcome : Option (Node × Option Hash) → Type 0
  CoherentNodeOutcome none = Unit
  CoherentNodeOutcome (some (nd, old)) = CoherentNode (mark_stale nd)

  fork-Coherent :
      (o : Side) (a b : MaybeChild) → CoherentChild a → CoherentChild b → CoherentNode (fork o a b)
  unfolding CoherentNode
  fork-Coherent left a b ha hb = (λ e. absurd (cc), ha, hb)
  fork-Coherent right a b ha hb = (λ e. absurd (cc), hb, ha)

  split_child-Coherent :
      (s : Segment) (next : Node) (side : Side) (position : ℕ) (rest : List Side) (value : Hash)
      → CoherentNode next
      → CoherentOutcome (split_child s next side position rest value)
  unfolding split_child CoherentNode
  split_child-Coherent s next side position rest value c =
      parts (split_at s position) (from_bits rest)
    where
      parts :
          (cut : Option (Segment × Segment)) (made : Option Segment)
          → CoherentOutcome (
              cut >>= λ (prefix, suffix). made >>= λ leaf_segment. some (
                child prefix (fork side (child leaf_segment (leaf value)) (child suffix next)),
                none,
              ))
      parts none made = tt
      parts (some cut) none = tt
      parts (some (prefix, suffix)) (some ls) =
          fork-Coherent side (child ls (leaf value)) (child suffix next) (λ e. absurd (cc), tt, tt)
            c

  insert_status-Coherent :
      (s : Segment) (next : Node) (value : Hash)
      (descend : Side → List Side → Option (Node × Option Hash))
      (outcome : FollowStatus × List Side)
      → CoherentNode next
      → ((side : Side) (rest : List Side) → CoherentNodeOutcome (descend side rest))
      → CoherentOutcome (insert_status s next value descend outcome)
  unfolding insert_status CoherentNode
  insert_status-Coherent s next value descend (follow_node side, rest) c ih =
      continue (descend side rest) (ih side rest)
    where
      continue :
          (o : Option (Node × Option Hash))
          → CoherentNodeOutcome o
          → CoherentOutcome (o >>= λ (next', old). some (child s (mark_stale next'), old))
      continue none h = tt
      continue (some (nd, old)) h = h
  insert_status-Coherent s (node h u l r) value descend (found_leaf, rest) c ih =
      (λ e. absurd (cc), c.1, c.2)
  insert_status-Coherent s next value descend (split side position, rest) c ih =
      split_child-Coherent s next side position rest value c

  mutual
    unfolding insert_node insert_child CoherentNode

    insert_node-Coherent :
        (nd : Node) (side : Side) (it : List Side) (value : Hash)
        → CoherentNode nd
        → CoherentNodeOutcome (insert_node nd side it value)
    insert_node-Coherent (node h u l r) left it value c =
        rebuilt (insert_child l it value) (insert_child-Coherent l it value c.1)
      where
        rebuilt :
            (o : Option (MaybeChild × Option Hash))
            → CoherentOutcome o
            → CoherentNodeOutcome (o >>= λ (l', old). some (node h u l' r, old))
        rebuilt none k = tt
        rebuilt (some (l', old)) k = (λ e. absurd (cc), k, c.2)
    insert_node-Coherent (node h u l r) right it value c =
        rebuilt (insert_child r it value) (insert_child-Coherent r it value c.2)
      where
        rebuilt :
            (o : Option (MaybeChild × Option Hash))
            → CoherentOutcome o
            → CoherentNodeOutcome (o >>= λ (r', old). some (node h u l r', old))
        rebuilt none k = tt
        rebuilt (some (r', old)) k = (λ e. absurd (cc), c.1, k)

    insert_child-Coherent :
        (c : MaybeChild) (it : List Side) (value : Hash)
        → CoherentChild c
        → CoherentOutcome (insert_child c it value)
    insert_child-Coherent no_child it value c = made (from_bits it)
      where
        made :
            (o : Option Segment)
            → CoherentOutcome (o >>= λ segment. some (child segment (leaf value), none))
        made none = tt
        made (some s) = (λ e. absurd (cc), tt, tt)
    insert_child-Coherent (child s next) it value c =
        followed (follow s it) (λ side rest. insert_node-Coherent next side rest value c)
      where
        followed :
            (o : Option (FollowStatus × List Side))
            → ((side : Side) (rest : List Side)
                → CoherentNodeOutcome (insert_node next side rest value))
            → CoherentOutcome
                (o >>= insert_status s next value (λ side rest. insert_node next side rest value))
        followed none ih = tt
        followed (some outcome) ih =
            insert_status-Coherent s next value (λ side rest. insert_node next side rest value)
              outcome c ih

  -- After `insert` on coherent nodes, taking off the top flag leaves coherent nodes.
  pub insert_node-CoherentNode :
      (nd : Node) (side : Side) (it : List Side) (value : Hash) (result : Node) (old : Option Hash)
      → insert_node nd side it value ≡ some (result, old)
      → CoherentNode nd
      → CoherentNode (mark_stale result)
  insert_node-CoherentNode nd side it value result old e c =
      rw e at (insert_node-Coherent nd side it value c)

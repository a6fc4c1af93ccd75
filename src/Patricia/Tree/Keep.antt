-- ===== src/Patricia/Tree/Keep.antt =====
-- `Node::update` changes neither the shape nor the values.
use samizdat.Prelude.{
  ℕ, zero, suc, ◌≡◌, refl, ap, sym, true, false, List, [], ◌∷◌, Option, none, some, arith, length,
}
use samizdat.Hash.{Hash}
use samizdat.Patricia.Segment.{Side, left, right, segment_bits}
use samizdat.Patricia.Segment.Follow.{strip, strip-length}
use samizdat.Patricia.Tree.{
  Node, MaybeChild, node, no_child, child, node_hash, update_node, update_child,
}
use samizdat.Patricia.Tree.Shape.{behind, value_node, value_child, WfNode, WfChild}

pub behind_same :
    (stripped : Option (List Side)) (m : ℕ) (h h' : Hash) (f f' : Side → List Side → Option Hash)
    → ((it : List Side) → stripped ≡ some it → length it ≡ m)
    → (m ≡ 0 → h ≡ h')
    → ((k : ℕ) (side : Side) (it : List Side) → m ≡ suc k → length it ≡ k → f side it ≡ f' side it)
    → behind stripped h f ≡ behind stripped h' f'
behind_same none m h h' f f' sized eh ef = refl
behind_same (some []) m h h' f f' sized eh ef = ap some (eh (sym (sized [] refl)))
behind_same (some (side ∷ it)) m h h' f f' sized eh ef =
    ef (length it) side it (sym (sized (side ∷ it) refl)) refl

module _ (digest : List ℕ → Hash) where
  node_hash-update_leaf :
      (nd : Node) (m : ℕ) → WfNode m nd → m ≡ 0 → node_hash (update_node digest nd) ≡ node_hash nd
  unfolding update_node WfNode
  node_hash-update_leaf (node h true l r) m w e = refl
  node_hash-update_leaf (node h false no_child no_child) m w e = refl
  node_hash-update_leaf (node h false (child s n) r) zero w e = absurd (cc (w.0))
  node_hash-update_leaf (node h false (child s n) r) (suc m) w e = absurd (omega arith)
  node_hash-update_leaf (node h false no_child (child s n)) zero w e = absurd (cc (w.1))
  node_hash-update_leaf (node h false no_child (child s n)) (suc m) w e = absurd (omega arith)

  mutual
    unfolding update_node WfNode

    update_node_shape : (nd : Node) (n : ℕ) → WfNode n nd → WfNode n (update_node digest nd)
    update_node_shape (node h true l r) n w = w
    update_node_shape (node h false no_child no_child) zero w = w
    update_node_shape (node h false no_child no_child) (suc n) w = w
    update_node_shape (node h false (child s next) r) zero w = absurd (cc (w.0))
    update_node_shape (node h false (child s next) r) (suc n) w =
        (update_child_shape (child s next) n w.0, update_child_shape r n w.1)
    update_node_shape (node h false no_child (child s next)) zero w = absurd (cc (w.1))
    update_node_shape (node h false no_child (child s next)) (suc n) w =
        (tt, update_child_shape (child s next) n w.1)

    update_child_shape : (c : MaybeChild) (n : ℕ) → WfChild n c → WfChild n (update_child digest c)
    update_child_shape no_child n w = tt
    update_child_shape (child s next) n (m, hm, hs, w) = (m, hm, hs, update_node_shape next m w)

  pub update_node-WfNode : (nd : Node) (n : ℕ) → WfNode n nd → WfNode n (update_node digest nd)
  update_node-WfNode = update_node_shape

  mutual
    unfolding update_node value_node WfNode

    value_node_kept :
        (nd : Node) (n : ℕ) (side : Side) (it : List Side)
        → WfNode (suc n) nd
        → length it ≡ n
        → value_node (update_node digest nd) side it ≡ value_node nd side it
    value_node_kept (node h true l r) n left it w hl = refl
    value_node_kept (node h true l r) n right it w hl = refl
    value_node_kept (node h false no_child no_child) n left it w hl = refl
    value_node_kept (node h false no_child no_child) n right it w hl = refl
    value_node_kept (node h false (child s next) r) n left it w hl =
        value_child_kept (child s next) n it w.0 hl
    value_node_kept (node h false (child s next) r) n right it w hl = value_child_kept r n it w.1 hl
    value_node_kept (node h false no_child (child s next)) n left it w hl = refl
    value_node_kept (node h false no_child (child s next)) n right it w hl =
        value_child_kept (child s next) n it w.1 hl

    value_child_kept :
        (c : MaybeChild) (n : ℕ) (it : List Side)
        → WfChild n c
        → length it ≡ n
        → value_child (update_child digest c) it ≡ value_child c it
    value_child_kept no_child n it w hl = refl
    value_child_kept (child s next) n it (m, hm, hs, w) hl =
        behind_same (strip (segment_bits s) it) m _ _ _ _
          (strip-length (segment_bits s) it n m hl hm) (node_hash-update_leaf next m w)
          (λ k side rest e hr. value_node_kept next k side rest (rw e at w) hr)

  pub value_node-update_node :
      (nd : Node) (n : ℕ) (side : Side) (it : List Side)
      → WfNode (suc n) nd
      → length it ≡ n
      → value_node (update_node digest nd) side it ≡ value_node nd side it
  value_node-update_node = value_node_kept

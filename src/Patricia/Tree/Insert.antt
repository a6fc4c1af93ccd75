-- ===== src/Patricia/Tree/Insert.antt =====
-- `PatriciaMap::insert` below the root: it does not panic, keeps the shape, returns the value that it
-- replaces, and changes the reading at its key alone.
pub mod Ends
pub mod Split
use samizdat.Prelude.{
  ℕ, suc, ◌+◌, ◌%◌, ◌≤◌, ◌≡◌, refl, ap, sym, ◌∙◌, false, List, [], ◌∷◌, ◌++◌, Option, none, some,
  arith, length, length-append, if◌then◌else◌, drop, take-append,
}
use samizdat.Hash.{Hash}
use samizdat.Patricia.Segment.{
  Side, left, right, other, side_eq, Segment, FollowStatus, split, follow_node, found_leaf,
  from_bits, segment_bits, split_at,
}
use samizdat.Patricia.Segment.Bytes.{sides_eq}
use samizdat.Patricia.Segment.RoundTrip.{segment_bits-from_bits}
use samizdat.Patricia.Segment.Follow.{
  strip, Follows, leaf_end, node_end, differ, follow-Follows, strip-append, strip_self,
  strip-append_prefix, strip-length,
}
use samizdat.Patricia.Tree.{
  Node, MaybeChild, node, no_child, child, leaf, fork, mark_stale, overwrite, node_hash,
  insert_node, insert_child, insert_status, split_child,
}
use samizdat.Patricia.Tree.Shape.{
  behind, value_node, value_child, WfNode, WfChild, mark_stale-WfNode, overwrite-WfNode,
  value_node-mark_stale, hash-overwrite,
}
use samizdat.Patricia.Tree.Insert.Ends.{
  changed, strip_same_length, leaf_child, after, changed-append, changed-changed, insert_leaf_end,
  behind-changed, insert_node_end, InsertedChild, InsertedNode,
}
use samizdat.Patricia.Tree.Insert.Split.{
  drop_past, split_at-parts, value_fork, then_strip, behind-then_strip, other_ne, not_behind,
  fork-WfNode, insert_differ_parts, insert_differ,
}

-- One round of the loop at a child, from what the next round does.
insert_round :
    (n : ℕ) (s : Segment) (next : Node) (m : ℕ) (it : List Side) (value : Hash)
    (descend : Side → List Side → Option (Node × Option Hash))
    → n ≤ 223
    → length (segment_bits s) + m ≡ n
    → s.len ≡ length (segment_bits s)
    → WfNode m next
    → length it ≡ n
    → ((k : ℕ) (side : Side) (rest : List Side)
        → k ≤ 223
        → WfNode (suc k) next
        → length rest ≡ k
        → InsertedNode k next side rest value (descend side rest))
    → (status : FollowStatus) (rest : List Side) → Follows 0 (segment_bits s) it status rest
    → InsertedChild n (child s next) it value (insert_status s next value descend (status, rest))
insert_round n s next m it value descend hn hm hs w hl ih status rest (leaf_end e) =
    insert_leaf_end n s next m it value descend hm hs w hl e
insert_round n s next m it value descend hn hm hs w hl ih status rest (node_end {s = side} e) =
    let k : m ≡ suc (length rest) =
      omega (arith, ap length e, length-append (segment_bits s) (side ∷ rest)) in
    insert_node_end n s next (length rest) it value descend side rest (rw k at hm) hs e
      (ih (length rest) side rest (omega arith) (rw k at w) refl)
insert_round n s next m it value descend hn hm hs w hl ih status rest
      (differ {o} {position = position} shared suffix es ei ep) =
    let ep' : position ≡ length shared = omega arith in
    rw ep' (insert_differ n s next m it value descend o rest shared suffix hn hm w hl es ei)

mutual
  unfolding insert_node insert_child value_node WfNode

  insert_node_lem :
      (nd : Node) (n : ℕ) (side : Side) (it : List Side) (value : Hash)
      → n ≤ 223
      → WfNode (suc n) nd
      → length it ≡ n
      → InsertedNode n nd side it value (insert_node nd side it value)
  insert_node_lem (node h u l r) n left it value hn w hl =
      let ih = insert_child_lem l n it value hn w.0 hl in
      record {
        result = node h u ih.result r;
        old = ih.old;
        runs = rw ih.runs refl;
        shape = (ih.shape, w.1);
        returned = ih.returned;
        reads = elim [ left ↦ λ it' h'. ih.reads it' h' | right ↦ λ it' h'. refl ];
      }
  insert_node_lem (node h u l r) n right it value hn w hl =
      let ih = insert_child_lem r n it value hn w.1 hl in
      record {
        result = node h u l ih.result;
        old = ih.old;
        runs = rw ih.runs refl;
        shape = (w.0, ih.shape);
        returned = ih.returned;
        reads = elim [ left ↦ λ it' h'. refl | right ↦ λ it' h'. ih.reads it' h' ];
      }

  insert_child_lem :
      (c : MaybeChild) (n : ℕ) (it : List Side) (value : Hash)
      → n ≤ 223
      → WfChild n c
      → length it ≡ n
      → InsertedChild n c it value (insert_child c it value)
  insert_child_lem no_child n it value hn w hl = leaf_child n it value hn hl
  insert_child_lem (child s next) n it value hn (m, hm, hs, w) hl =
      let (status, rest, runs, f) = follow-Follows s it (omega arith) (omega arith) in
      rw runs (
        insert_round n s next m it value (λ side rest. insert_node next side rest value) hn hm hs w
          hl (λ k side rest hk wk hr. insert_node_lem next k side rest value hk wk hr) status rest
          f)

-- `insert` at a node whose leaves stand `n + 1` bits down.
pub insert_node-Inserted :
    (nd : Node) (n : ℕ) (side : Side) (it : List Side) (value : Hash)
    → n ≤ 223
    → WfNode (suc n) nd
    → length it ≡ n
    → InsertedNode n nd side it value (insert_node nd side it value)
insert_node-Inserted = insert_node_lem

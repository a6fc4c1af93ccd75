-- ===== src/Patricia/Tree/Insert/Ends.antt =====
-- What an insertion returns, and the rounds of its loop that follow a segment to its end.
use samizdat.Prelude.{
  ℕ, suc, ◌+◌, ◌≤◌, ◌≡◌, refl, ap, sym, ◌∙◌, List, [], ◌∷◌, ◌++◌, Option, none, some, arith, length,
  if◌then◌else◌,
}
use samizdat.Hash.{Hash}
use samizdat.Patricia.Segment.{Side, left, right, Segment, follow_node, found_leaf, segment_bits}
use samizdat.Patricia.Segment.Bytes.{sides_eq}
use samizdat.Patricia.Segment.RoundTrip.{segment_bits-from_bits}
use samizdat.Patricia.Segment.Follow.{strip, strip-append, strip_self, strip-length}
use samizdat.Patricia.Tree.{
  Node, MaybeChild, no_child, child, leaf, mark_stale, overwrite, node_hash, insert_child,
  insert_status,
}
use samizdat.Patricia.Tree.Shape.{
  behind, value_node, value_child, WfNode, WfChild, mark_stale-WfNode, overwrite-WfNode,
  value_node-mark_stale, hash-overwrite,
}

abbrev pub changed : List Side → List Side → Hash → Option Hash → Option Hash
changed it' it value old = if sides_eq it' it then some value else old

-- What an insertion into a child with `n` bits left returns.
pub record InsertedChild (n : ℕ) (c : MaybeChild) (it : List Side) (value : Hash)
    (outcome : Option (MaybeChild × Option Hash)) : Type 0 where
  pub result : MaybeChild
  pub old : Option Hash
  pub runs : outcome ≡ some (result, old)
  pub shape : WfChild n result
  pub returned : old ≡ value_child c it
  pub reads :
      (it' : List Side)
      → length it' ≡ n
      → value_child result it' ≡ changed it' it value (value_child c it')

pub record InsertedNode (n : ℕ) (nd : Node) (side : Side) (it : List Side) (value : Hash)
    (outcome : Option (Node × Option Hash)) : Type 0 where
  pub result : Node
  pub old : Option Hash
  pub runs : outcome ≡ some (result, old)
  pub shape : WfNode (suc n) result
  pub returned : old ≡ value_node nd side it
  pub reads :
      (side' : Side) (it' : List Side)
      → length it' ≡ n
      → value_node result side' it'
        ≡ changed (side' ∷ it') (side ∷ it) value (value_node nd side' it')

-- A list as long as the prefix: all of it is stripped, or none.
pub strip_same_length :
    (p it : List Side) (value : Hash) (next : Side → List Side → Option Hash)
    → length it ≡ length p
    → behind (strip p it) value next ≡ changed it p value none
unfolding strip
strip_same_length [] [] value next h = refl
strip_same_length [] (o ∷ it) value next h = absurd (omega arith)
strip_same_length (t ∷ p) [] value next h = absurd (omega arith)
strip_same_length (left ∷ p) (left ∷ it) value next h =
    strip_same_length p it value next (omega arith)
strip_same_length (left ∷ p) (right ∷ it) value next h = refl
strip_same_length (right ∷ p) (left ∷ it) value next h = refl
strip_same_length (right ∷ p) (right ∷ it) value next h =
    strip_same_length p it value next (omega arith)

-- A new leaf for the rest of the key.
pub leaf_child :
    (n : ℕ) (it : List Side) (value : Hash)
    → n ≤ 223
    → length it ≡ n
    → InsertedChild n no_child it value (insert_child no_child it value)
unfolding insert_child value_child WfChild WfNode
leaf_child n it value hn hl =
    let (s, e, hb, hs) = segment_bits-from_bits it (omega arith) in
    record {
      result = child s (leaf value);
      old = none;
      runs = rw e refl;
      shape = (0, omega (arith, ap length hb), hs ∙ sym (ap length hb), (refl, refl));
      returned = refl;
      reads = λ it' h'. rw hb (strip_same_length it it' value _ (h' ∙ sym hl));
    }

-- A change behind a prefix.
abbrev pub after : Option (List Side) → List Side → Hash → Option Hash → Option Hash
after none y value old = old
after (some rest) y value old = changed rest y value old

pub changed-append :
    (p it' y : List Side) (value : Hash) (old : Option Hash)
    → changed it' (p ++ y) value old ≡ after (strip p it') y value old
unfolding strip
changed-append [] it' y value old = refl
changed-append (t ∷ p) [] y value old = refl
changed-append (left ∷ p) (left ∷ it') y value old = changed-append p it' y value old
changed-append (left ∷ p) (right ∷ it') y value old = refl
changed-append (right ∷ p) (left ∷ it') y value old = refl
changed-append (right ∷ p) (right ∷ it') y value old = changed-append p it' y value old

pub changed-changed :
    (it' it : List Side) (value h : Hash)
    → changed it' it value none ≡ changed it' it value (changed it' it h none)
changed-changed it' it value h = ground arith

-- Where the loop ends at a leaf.
pub insert_leaf_end :
    (n : ℕ) (s : Segment) (next : Node) (m : ℕ) (it : List Side) (value : Hash)
    (descend : Side → List Side → Option (Node × Option Hash))
    → length (segment_bits s) + m ≡ n
    → s.len ≡ length (segment_bits s)
    → WfNode m next
    → length it ≡ n
    → it ≡ segment_bits s
    → InsertedChild n (child s next) it value (insert_status s next value descend (found_leaf, []))
unfolding insert_status value_child WfChild
insert_leaf_end n s next m it value descend hm hs w hl e = record {
  result = child s (overwrite next value);
  old = some (node_hash next);
  runs = refl;
  shape = (m, hm, hs, overwrite-WfNode m next value w);
  returned = rw (e, strip_self) refl;
  reads = λ it' h'.
      let same_length = h' ∙ sym hl ∙ ap length e in
      rw
        (
          strip_same_length (segment_bits s) it' (node_hash (overwrite next value))
              (λ side rest. value_node (overwrite next value) side rest) same_length,
          strip_same_length (segment_bits s) it' (node_hash next)
              (λ side rest. value_node next side rest) same_length,
          hash-overwrite next value,
          e,
        )
        (changed-changed it' (segment_bits s) value (node_hash next));
}

pub behind-changed :
    (stripped : Option (List Side)) (k : ℕ) (side : Side) (rest : List Side) (value h h' : Hash)
    (new old : Side → List Side → Option Hash)
    → ((it : List Side) → stripped ≡ some it → length it ≡ suc k)
    → ((side' : Side) (it' : List Side)
        → length it' ≡ k
        → new side' it' ≡ changed (side' ∷ it') (side ∷ rest) value (old side' it'))
    → behind stripped h new ≡ after stripped (side ∷ rest) value (behind stripped h' old)
behind-changed none k side rest value h h' new old sized each = refl
behind-changed (some []) k side rest value h h' new old sized each =
    absurd (omega (arith, sized [] refl))
behind-changed (some (side' ∷ it')) k side rest value h h' new old sized each =
    each side' it' (omega (arith, sized (side' ∷ it') refl))

-- Where the loop goes on at the node behind the segment.
pub insert_node_end :
    (n : ℕ) (s : Segment) (next : Node) (k : ℕ) (it : List Side) (value : Hash)
    (descend : Side → List Side → Option (Node × Option Hash)) (side : Side) (rest : List Side)
    → length (segment_bits s) + suc k ≡ n
    → s.len ≡ length (segment_bits s)
    → it ≡ segment_bits s ++ side ∷ rest
    → InsertedNode k next side rest value (descend side rest)
    → InsertedChild n
        (child s next)
        it
        value
        (insert_status s next value descend (follow_node side, rest))
unfolding insert_status value_child WfChild
insert_node_end n s next k it value descend side rest hk hs e ih = record {
  result = child s (mark_stale ih.result);
  old = ih.old;
  runs = rw ih.runs refl;
  shape = (suc k, hk, hs, mark_stale-WfNode (suc k) ih.result ih.shape);
  returned = ih.returned ∙ rw (e, strip-append) refl;
  reads = λ it' h'.
      rw (e, changed-append)
        (behind-changed (strip (segment_bits s) it') k side rest value _ (node_hash next) _
          (λ side' rest'. value_node next side' rest')
          (strip-length (segment_bits s) it' n (suc k) h' hk)
          (λ side' rest' hr.
            value_node-mark_stale ih.result side' rest' ∙ ih.reads side' rest' hr));
}

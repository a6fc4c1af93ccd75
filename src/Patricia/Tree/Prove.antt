-- ===== src/Patricia/Tree/Prove.antt =====
-- The walk of `PatriciaMap::proof_for`: it finds the value that stands at the key, and its path
-- rebuilds the hash of the node where it began.
use samizdat.Prelude.{
  ℕ, suc, ◌+◌, ◌≤◌, ◌≡◌, refl, ap, sym, ◌∙◌, List, [], ◌∷◌, ◌++◌, Option, none, some, arith, length,
  length-append, take, drop, take-append, drop-append, take_all, append-nil,
}
use samizdat.Hash.{Hash}
use samizdat.Patricia.Segment.{Side, left, right, Segment, FollowStatus, follow_node, segment_bits}
use samizdat.Patricia.Segment.Follow.{
  Follows, leaf_end, node_end, differ, follow-Follows, strip-append, strip_self,
}
use samizdat.Patricia.Tree.{
  Node, MaybeChild, node, no_child, child, node_hash, child_hash, PathAndValue, prove_node,
  prove_child, prove_status,
}
use samizdat.Patricia.Tree.Shape.{value_node, value_child, WfNode, WfChild}
use samizdat.Patricia.Tree.Insert.Split.{not_behind}
use samizdat.Patricia.Tree.Update.{FreshNode, FreshChild}
use samizdat.Patricia.Proof.{bit_length, sum_lens, step}
use samizdat.Patricia.Proof.Rebuild.{rebuild, climb, climb_loop-reverse}

bit_length-nil : bit_length [] ≡ 0
unfolding bit_length sum_lens
bit_length-nil = refl

bit_length-cons :
    (h : Hash) (n : ℕ) (path : List (Hash × ℕ))
    → bit_length ((h, n) ∷ path) ≡ suc (n + bit_length path)
unfolding bit_length sum_lens
bit_length-cons h n path = omega arith

module _ (digest : List ℕ → Hash) where
  -- What the walk found, against the value at the key and the hash to rebuild.
  abbrev pub Answers : Option PathAndValue → Option Hash → Side → List Side → Hash → Type 0
  Answers none value side it target = value ≡ none
  Answers (some (path, v)) value side it target =
      (value ≡ some v)
      × (bit_length path ≡ suc (length it))
      × (rebuild digest path (side ∷ it) v ≡ target)

  pub record Proved (value : Option Hash) (side : Side) (it : List Side) (target : Hash)
      (outcome : Option (Option PathAndValue)) : Type 0 where
    pub found : Option PathAndValue
    pub runs : outcome ≡ some found
    pub answers : Answers found value side it target

  take_prefix :
      (p rest : List Side) (n : ℕ)
      → n ≡ length p
      → (take n (p ++ rest) ≡ p) × (drop n (p ++ rest) ≡ rest)
  take_prefix p rest n e = rw e (take-append p rest, drop-append p rest)

  take_self : (p : List Side) (n : ℕ) → n ≡ length p → take n p ≡ p
  take_self p n e = take_all n p (omega arith)

  child_hash-climb :
      (s : Segment) (next : Node)
      → child_hash digest (child s next) ≡ climb digest (segment_bits s) (node_hash next)
  unfolding child_hash
  child_hash-climb s next = climb_loop-reverse digest (segment_bits s) (node_hash next)

  rebuild-nil : (v : Hash) → rebuild digest [] [] v ≡ v
  unfolding rebuild
  rebuild-nil v = refl

  -- One element of the path.
  rebuild-cons :
      (sibling : Hash) (s : Segment) (path : List (Hash × ℕ)) (side : Side) (rest : List Side)
      (v h : Hash)
      → s.len ≡ length (segment_bits s)
      → rebuild digest path rest v ≡ h
      → rebuild digest ((sibling, s.len) ∷ path) (side ∷ (segment_bits s ++ rest)) v
        ≡ step digest side (climb digest (segment_bits s) h) sibling
  unfolding rebuild
  rebuild-cons sibling s path side rest v h hs e =
      let (t, d) = take_prefix (segment_bits s) rest s.len hs in rw (t, d, e) refl

  prove_round :
      (s : Segment) (next : Node) (sibling : Hash) (side : Side) (it : List Side)
      (descend : Side → List Side → Option (Option PathAndValue))
      → s.len ≡ length (segment_bits s)
      → ((side' : Side) (rest : List Side)
          → it ≡ segment_bits s ++ side' ∷ rest
          → Proved (value_node next side' rest) side' rest (node_hash next) (descend side' rest))
      → (status : FollowStatus) (rest : List Side) → Follows 0 (segment_bits s) it status rest
      → Proved
          (value_child (child s next) it)
          side
          it
          (step digest side (child_hash digest (child s next)) sibling)
          (prove_status digest sibling s next descend (status, rest))
  unfolding prove_status value_child
  prove_round s next sibling side it descend hs ih status rest (leaf_end e) = record {
    found = some ((sibling, s.len) ∷ [], node_hash next);
    runs = refl;
    answers = (
      rw (e, strip_self) refl,
      omega (arith, bit_length-cons sibling s.len [], bit_length-nil, ap length e),
      ap (λ l. rebuild digest ((sibling, s.len) ∷ []) (side ∷ l) (node_hash next))
            (e ∙ sym (append-nil (segment_bits s)))
          ∙ rebuild-cons sibling s [] side [] (node_hash next) (node_hash next) hs
              (rebuild-nil (node_hash next))
          ∙ ap (λ x. step digest side x sibling) (sym (child_hash-climb s next)),
    );
  }
  prove_round s next sibling side it descend hs ih status rest (node_end {s = side'} e) =
      let p = ih side' rest e in go p.found p.runs p.answers
    where
      go :
          (found : Option PathAndValue)
          → descend side' rest ≡ some found
          → Answers found (value_node next side' rest) side' rest (node_hash next)
          → Proved
              (value_child (child s next) it)
              side
              it
              (step digest side (child_hash digest (child s next)) sibling)
              (prove_status digest sibling s next descend (follow_node side', rest))
      go none runs a = record {
        found = none;
        runs = rw runs refl;
        answers = rw (e, strip-append) a;
      }
      go (some (path, v)) runs (a, l, r) = record {
        found = some ((sibling, s.len) ∷ path, v);
        runs = rw runs refl;
        answers = (
          rw (e, strip-append) a,
          omega (
            arith,
            bit_length-cons sibling s.len path,
            ap length e,
            length-append (segment_bits s) (side' ∷ rest),
          ),
          ap (λ l. rebuild digest ((sibling, s.len) ∷ path) (side ∷ l) v) e
              ∙ rebuild-cons sibling s path side (side' ∷ rest) v (node_hash next) hs r
              ∙ ap (λ x. step digest side x sibling) (sym (child_hash-climb s next)),
        );
      }
  prove_round s next sibling side it descend hs ih status rest (differ {o} shared suffix es ei ep) =
      record {
        found = none;
        runs = refl;
        answers = rw (es, ei) (not_behind shared o suffix rest _ _);
      }

  mutual
    unfolding prove_node prove_child value_node FreshNode WfNode

    Proved-node :
        (nd : Node) (n : ℕ) (side : Side) (it : List Side)
        → n ≤ 223
        → WfNode (suc n) nd
        → FreshNode digest nd
        → length it ≡ n
        → Proved (value_node nd side it) side it (node_hash nd) (prove_node digest nd side it)
    Proved-node (node h u no_child r) n left it hn w f hl = record {
      found = none;
      runs = refl;
      answers = refl;
    }
    Proved-node (node h u (child s next) r) n left it hn w f hl =
        rw f.0 (Proved-child (child s next) n (child_hash digest r) left it hn w.0 f.1 hl)
    Proved-node (node h u l no_child) n right it hn w f hl = record {
      found = none;
      runs = refl;
      answers = refl;
    }
    Proved-node (node h u no_child (child s next)) n right it hn w f hl =
        rw f.0 (Proved-child (child s next) n (child_hash digest no_child) right it hn w.1 f.2 hl)
    Proved-node (node h u (child s' next') (child s next)) n right it hn w f hl =
        rw f.0 (
          Proved-child (child s next) n (child_hash digest (child s' next')) right it hn w.1 f.2 hl)

    Proved-child :
        (c : MaybeChild) (n : ℕ) (sibling : Hash) (side : Side) (it : List Side)
        → n ≤ 223
        → WfChild n c
        → FreshChild digest c
        → length it ≡ n
        → Proved
            (value_child c it)
            side
            it
            (step digest side (child_hash digest c) sibling)
            (prove_child digest c sibling it)
    Proved-child no_child n sibling side it hn w f hl = record {
      found = none;
      runs = refl;
      answers = refl;
    }
    Proved-child (child s next) n sibling side it hn (m, hm, hs, w) f hl =
        let (status, rest, runs, follows) = follow-Follows s it (omega arith) (omega arith) in
        rw runs (
          prove_round s next sibling side it (λ side' rest'. prove_node digest next side' rest') hs
            (λ side' rest' e.
              let k : m ≡ suc (length rest') =
                omega (arith, ap length e, length-append (segment_bits s) (side' ∷ rest')) in
              Proved-node next (length rest') side' rest' (omega arith) (rw k at w) f refl)
            status rest follows)

  -- On a fresh node of the right depth the walk does not panic; it finds a leaf exactly where there
  -- is a value, with a path of the right length that rebuilds the node's hash.
  pub prove_node-Proved :
      (nd : Node) (n : ℕ) (side : Side) (it : List Side)
      → n ≤ 223
      → WfNode (suc n) nd
      → FreshNode digest nd
      → length it ≡ n
      → Proved (value_node nd side it) side it (node_hash nd) (prove_node digest nd side it)
  prove_node-Proved = Proved-node

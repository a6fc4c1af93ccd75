-- ===== src/Patricia/Tree/Insert/Split.antt =====
-- The round of the insertion loop that splits a segment.
use samizdat.Prelude.{
  ℕ, suc, ◌+◌, ◌%◌, ◌≤◌, ◌≡◌, refl, ap, sym, ◌∙◌, false, List, [], ◌∷◌, ◌++◌, Option, none, some,
  arith, length, length-append, drop, take-append,
}
use samizdat.Hash.{Hash}
use samizdat.Patricia.Segment.{
  Side, left, right, other, side_eq, Segment, split, from_bits, segment_bits, split_at,
}
use samizdat.Patricia.Segment.RoundTrip.{segment_bits-from_bits}
use samizdat.Patricia.Segment.Follow.{strip, strip-append, strip-append_prefix, strip-length}
use samizdat.Patricia.Tree.{
  Node, MaybeChild, child, leaf, fork, node_hash, insert_status, split_child,
}
use samizdat.Patricia.Tree.Shape.{behind, value_node, value_child, WfNode, WfChild}
use samizdat.Patricia.Tree.Insert.Ends.{
  changed, strip_same_length, after, changed-append, behind-changed, InsertedChild,
}

pub drop_past : (xs ys : List Side) (x : Side) → drop (suc (length xs)) (xs ++ x ∷ ys) ≡ ys
drop_past [] ys x = refl
drop_past (y ∷ xs) ys x = drop_past xs ys x

pub split_at-parts :
    (s : Segment) (shared suffix : List Side) (t : Side)
    → segment_bits s ≡ shared ++ t ∷ suffix
    → length (segment_bits s) ≤ 223
    → (prefix : Segment) × (back : Segment) × (split_at s (length shared) ≡ some (prefix, back))
      × (segment_bits prefix ≡ shared)
      × (prefix.len ≡ length shared)
      × (segment_bits back ≡ suffix)
      × (back.len ≡ length suffix)
unfolding split_at
split_at-parts s shared suffix t e h =
    let sum = ap length e ∙ length-append shared (t ∷ suffix) in
    let (prefix, pe, pb, pl) = segment_bits-from_bits shared (omega (arith, sum)) in
    let (back, be, bb, bl) = segment_bits-from_bits suffix (omega (arith, sum)) in
    let past : (length shared + 1) % 256 ≡ suc (length shared) = omega (arith, sum) in
    (
      prefix,
      back,
      rw (e, past, take-append shared (t ∷ suffix), drop_past shared suffix t, pe, be) refl,
      pb,
      pl,
      bb,
      bl,
    )

-- The node where the old and the new leaf part, read at a key that reaches it.
pub value_fork :
    (k : ℕ) (o : Side) (prefix leaf_segment back : Segment) (next : Node) (rest suffix : List Side)
    (value : Hash) (side : Side) (it : List Side)
    → length rest ≡ k
    → segment_bits leaf_segment ≡ rest
    → segment_bits back ≡ suffix
    → length it ≡ k
    → value_node (fork o (child leaf_segment (leaf value)) (child back next)) side it
      ≡ changed (side ∷ it) (o ∷ rest) value (
          behind
            (strip (other o ∷ suffix) (side ∷ it))
            (node_hash next)
            (λ side' it'. value_node next side' it'))
unfolding value_node strip
value_fork k left prefix ls back next rest suffix value left it hr lb bb hi =
    rw lb (strip_same_length rest it value _ (hi ∙ sym hr))
value_fork k left prefix ls back next rest suffix value right it hr lb bb hi = rw bb refl
value_fork k right prefix ls back next rest suffix value left it hr lb bb hi = rw bb refl
value_fork k right prefix ls back next rest suffix value right it hr lb bb hi =
    rw lb (strip_same_length rest it value _ (hi ∙ sym hr))

abbrev pub then_strip : Option (List Side) → List Side → Option (List Side)
then_strip stripped q = elim stripped [ none ↦ none | some rest ↦ strip q rest ]

pub behind-then_strip :
    (stripped : Option (List Side)) (k : ℕ) (t : Side) (q : List Side) (h h' : Hash)
    (f : Side → List Side → Option Hash)
    → ((it : List Side) → stripped ≡ some it → length it ≡ suc k)
    → behind stripped h' (λ side rest. behind (strip (t ∷ q) (side ∷ rest)) h f)
      ≡ behind (then_strip stripped (t ∷ q)) h f
behind-then_strip none k t q h h' f sized = refl
behind-then_strip (some []) k t q h h' f sized = absurd (omega (arith, sized [] refl))
behind-then_strip (some (side ∷ rest)) k t q h h' f sized = refl

pub other_ne : (o : Side) → side_eq (other o) o ≡ false
other_ne left = refl
other_ne right = refl

-- A key that leaves the segment has no value behind it.
pub not_behind :
    (shared : List Side) (o : Side) (suffix rest : List Side) (h : Hash)
    (next : Side → List Side → Option Hash)
    → behind (strip (shared ++ other o ∷ suffix) (shared ++ o ∷ rest)) h next ≡ none
not_behind shared o suffix rest h next =
    rw (strip-append_prefix shared (other o ∷ suffix) (shared ++ o ∷ rest), strip-append)
      (unfold strip in rw (other_ne o) refl)

pub fork-WfNode :
    (k : ℕ) (o : Side) (a b : MaybeChild) → WfChild k a → WfChild k b → WfNode (suc k) (fork o a b)
unfolding WfNode
fork-WfNode k left a b wa wb = (wa, wb)
fork-WfNode k right a b wa wb = (wb, wa)

-- Where the key leaves the segment: a node takes the place of the shared prefix's end.
pub insert_differ_parts :
    (n : ℕ) (s : Segment) (next : Node) (m : ℕ) (it : List Side) (value : Hash)
    (descend : Side → List Side → Option (Node × Option Hash)) (o : Side)
    (rest shared suffix : List Side) (prefix back ls : Segment)
    → length (segment_bits s) + m ≡ n
    → WfNode m next
    → length it ≡ n
    → segment_bits s ≡ shared ++ other o ∷ suffix
    → it ≡ shared ++ o ∷ rest
    → split_at s (length shared) ≡ some (prefix, back)
    → segment_bits prefix ≡ shared
    → prefix.len ≡ length shared
    → segment_bits back ≡ suffix
    → back.len ≡ length suffix
    → from_bits rest ≡ some ls
    → segment_bits ls ≡ rest
    → ls.len ≡ length rest
    → InsertedChild n
        (child s next)
        it
        value
        (insert_status s next value descend (split o (length shared), rest))
unfolding insert_status split_child value_child WfChild WfNode
insert_differ_parts n s next m it value descend o rest shared suffix prefix back ls hm w hl es ei
      runs pb pl bb bl le lb ll =
    let k = length rest in
    let ss = ap length es ∙ length-append shared (other o ∷ suffix) in
    let si = ap length ei ∙ length-append shared (o ∷ rest) in
    let hk : length shared + suc k ≡ n = omega (arith, si) in
    record {
      result = child prefix (fork o (child ls (leaf value)) (child back next));
      old = none;
      runs = rw (runs, le) refl;
      shape = (
        suc k,
        ap (λ l. length l + suc k) pb ∙ hk,
        pl ∙ sym (ap length pb),
        fork-WfNode k o (child ls (leaf value)) (child back next)
            (0, omega (arith, ap length lb), ll ∙ sym (ap length lb), (refl, refl))
            (m, omega (arith, ap length bb, ss, si), bl ∙ sym (ap length bb), w),
      );
      returned =
          rw (es, ei)
            (sym (
              not_behind shared o suffix rest (node_hash next)
                (λ side it'. value_node next side it')));
      reads = λ it' h'.
          let f = λ (side' : Side) (tail : List Side). value_node next side' tail in
          let new = λ (side' : Side) (tail : List Side).
            value_node (fork o (child ls (leaf value)) (child back next)) side' tail in
          let sized = strip-length shared it' n (suc k) h' hk in
          rw (pb, es, ei, changed-append)
            (behind-changed (strip shared it') k o rest value
                (node_hash (fork o (child ls (leaf value)) (child back next))) (node_hash next) new
                (λ side' tail. behind (strip (other o ∷ suffix) (side' ∷ tail)) (node_hash next) f)
                sized
                (λ side' tail ht.
                  value_fork k o prefix ls back next rest suffix value side' tail refl lb bb ht)
              ∙ ap (after (strip shared it') (o ∷ rest) value) (
                  behind-then_strip (strip shared it') k (other o) suffix (node_hash next)
                    (node_hash next) f sized
                  ∙ ap (λ x. behind x (node_hash next) f)
                      (sym (strip-append_prefix shared (other o ∷ suffix) it'))));
    }

pub insert_differ :
    (n : ℕ) (s : Segment) (next : Node) (m : ℕ) (it : List Side) (value : Hash)
    (descend : Side → List Side → Option (Node × Option Hash)) (o : Side)
    (rest shared suffix : List Side)
    → n ≤ 223
    → length (segment_bits s) + m ≡ n
    → WfNode m next
    → length it ≡ n
    → segment_bits s ≡ shared ++ other o ∷ suffix
    → it ≡ shared ++ o ∷ rest
    → InsertedChild n
        (child s next)
        it
        value
        (insert_status s next value descend (split o (length shared), rest))
insert_differ n s next m it value descend o rest shared suffix hn hm w hl es ei =
    let si = ap length ei ∙ length-append shared (o ∷ rest) in
    let (prefix, back, runs, pb, pl, bb, bl) =
      split_at-parts s shared suffix (other o) es (omega arith) in
    let (ls, le, lb, ll) = segment_bits-from_bits rest (omega (arith, si)) in
    insert_differ_parts n s next m it value descend o rest shared suffix prefix back ls hm w hl es
      ei runs pb pl bb bl le lb ll

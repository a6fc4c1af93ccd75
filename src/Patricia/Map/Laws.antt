-- ===== src/Patricia/Map/Laws.antt =====
-- `PatriciaMap` refines a function from keys to values, and its proofs are accepted.
use samizdat.Prelude.{
  ℕ, ◌*◌, ◌≡◌, refl, ap, sym, ◌∙◌, true, List, [], ◌∷◌, Option, none, some, arith, length,
  append-nil, reverse, if◌then◌else◌, Bool-cases, inl, inr, ==_iff,
}
use samizdat.Hash.{Hash, IsHash, hash_eq, hash_eq_iff}
use samizdat.Patricia.Segment.{Side, left, right, bits}
use samizdat.Patricia.Segment.Bytes.{
  length-bits, bits-injective, sides_eq, sides_eq_refl, eq_of_sides_eq,
}
use samizdat.Patricia.Tree.{Node, mark_stale, update_node, prove_node, PathAndValue}
use samizdat.Patricia.Tree.Shape.{value_node, WfNode, mark_stale-WfNode, value_node-mark_stale}
use samizdat.Patricia.Tree.Insert.{insert_node-Inserted}
use samizdat.Patricia.Tree.Insert.Ends.{changed}
use samizdat.Patricia.Tree.Update.{
  FreshNode, update_node-FreshNode, FreshNode-CoherentNode, insert_node-CoherentNode,
}
use samizdat.Patricia.Tree.Keep.{update_node-WfNode, value_node-update_node}
use samizdat.Patricia.Tree.Prove.{Answers, prove_node-Proved}
use samizdat.Patricia.Proof.{PatriciaProof, is_in, is_in_loop, bit_length}
use samizdat.Patricia.Proof.Rebuild.{rebuild, is_in_loop-reverse}
use samizdat.Patricia.Map.{PatriciaMap, new, root_hash, insert, extend, from_iter, proof_for}

-- The abstract map: the value at the bits of a key.
abbrev pub at_bits : Node → List Side → Option Hash
at_bits nd [] = none
at_bits nd (side ∷ it) = value_node nd side it

pub lookup : PatriciaMap → Hash → Option Hash
lookup m key = at_bits m.root (bits key)

-- A key has a first bit and 223 more.
pub IsHash-bits :
    (key : Hash)
    → IsHash key
    → (side : Side) × (it : List Side) × (bits key ≡ side ∷ it) × (length it ≡ 223)
IsHash-bits key h = first (bits key) (length-bits key ∙ ap (λ n. 8 * n) h.sized)
  where
    first :
        (l : List Side)
        → length l ≡ 224
        → (side : Side) × (it : List Side) × (l ≡ side ∷ it) × (length it ≡ 223)
    first [] e = absurd (omega arith)
    first (side ∷ it) e = (side, it, refl, omega arith)

-- Two keys have the same bits exactly when they are the same.
changed-bits :
    (k key value : Hash) (old : Option Hash)
    → IsHash k
    → IsHash key
    → changed (bits k) (bits key) value old ≡ (if hash_eq k key then some value else old)
changed-bits k key value old hk hkey = elim (Bool-cases (hash_eq k key)) [
  | inl e ↦ let same : k ≡ key = (hash_eq_iff k key).0 e in rw e (rw same (rw sides_eq_refl refl))
  | inr e ↦ elim (Bool-cases (sides_eq (bits k) (bits key))) [
    | inl s ↦
        let same =
          bits-injective k key hk.bytes hkey.bytes (hk.sized ∙ sym hkey.sized)
            (eq_of_sides_eq _ _ s) in
        absurd (cc ((hash_eq_iff k key).1 same))
    | inr s ↦ rw (e, s) refl
  ]
]

module _ (digest : List ℕ → Hash) where
  -- Every leaf stands 224 bits below the root, and every node holds its hash.
  pub record IsValid (m : PatriciaMap) : Type 0 where
    pub shape : WfNode 224 m.root
    pub fresh : FreshNode digest m.root

  pub new-IsValid : IsValid new
  unfolding WfNode FreshNode
  new-IsValid = record { shape = (tt, tt); fresh = (refl, tt, tt) }

  pub lookup-new : (key : Hash) → IsHash key → lookup new key ≡ none
  unfolding lookup value_node
  lookup-new key h = empty (bits key)
    where
      empty : (l : List Side) → at_bits new.root l ≡ none
      empty [] = refl
      empty (left ∷ it) = refl
      empty (right ∷ it) = refl

  -- What a call of `insert` does.
  pub record Inserted (m : PatriciaMap) (key value : Hash)
      (outcome : Option (PatriciaMap × Option Hash)) : Type 0 where
    pub result : PatriciaMap
    pub old : Option Hash
    pub runs : outcome ≡ some (result, old)
    pub valid : IsValid result
    pub returned : old ≡ lookup m key
    pub reads :
        (k : Hash) → IsHash k → lookup result k ≡ (if hash_eq k key then some value else lookup m k)

  inserted_root :
      (m : PatriciaMap) (key value : Hash) (side : Side) (it : List Side)
      → IsValid m
      → IsHash key
      → bits key ≡ side ∷ it
      → length it ≡ 223
      → Inserted m key value (insert digest m key value)
  unfolding insert lookup
  inserted_root m key value side it v hk eb hl =
      let ins = insert_node-Inserted m.root 223 side it value (omega arith) v.shape hl in
      let stale = mark_stale ins.result in
      let stale_shape = mark_stale-WfNode 224 ins.result ins.shape in
      record {
        result = record { root = update_node digest stale };
        old = ins.old;
        runs = rw eb (rw ins.runs refl);
        valid = record {
          shape = update_node-WfNode digest stale 224 stale_shape;
          fresh = update_node-FreshNode digest stale (
              insert_node-CoherentNode digest m.root side it value ins.result ins.old ins.runs
                (FreshNode-CoherentNode digest m.root v.fresh));
        };
        returned = rw eb ins.returned;
        reads = λ k hk'.
            let (side', it', eb', hl') = IsHash-bits k hk' in
            let kept =
              value_node-update_node digest stale 223 side' it' stale_shape hl'
              ∙ value_node-mark_stale ins.result side' it'
              ∙ ins.reads side' it' hl' in
            rw (← changed-bits k key value (at_bits m.root (bits k)) hk' hk) (rw (eb, eb') kept);
      }

  -- `insert` on a valid map does not panic. The new map is valid, the result is the value that stood
  -- at the key, and the new map reads as the old one but for the key, where it holds the value.
  pub insert-Inserted :
      (m : PatriciaMap) (key value : Hash)
      → IsValid m
      → IsHash key
      → Inserted m key value (insert digest m key value)
  insert-Inserted m key value v hk =
      let (side, it, eb, hl) = IsHash-bits key hk in inserted_root m key value side it v hk eb hl

  -- What a call of `proof_for` returns.
  abbrev pub Says : PatriciaMap → Hash → Option PatriciaProof → Type 0
  Says m key none = lookup m key ≡ none
  Says m key (some proof) =
      (lookup m key ≡ some proof.claimed_value)
      × (proof.claimed_key ≡ key)
      × (is_in digest proof (root_hash m) ≡ some true)

  is_in-rebuild :
      (key value : Hash) (path : List (Hash × ℕ)) (root : Hash)
      → IsHash key
      → bit_length path ≡ 224
      → rebuild digest path (bits key) value ≡ root
      → is_in digest (record { claimed_key = key; claimed_value = value; path = path }) root
        ≡ some true
  unfolding is_in
  is_in-rebuild key value path root h hl hr =
      let sized : bit_length path ≡ length (bits key) =
        hl ∙ sym (length-bits key ∙ ap (λ n. 8 * n) h.sized) in
      let loop =
        ap (λ l. is_in_loop digest (reverse path) l value) (sym (append-nil (reverse (bits key))))
        ∙ is_in_loop-reverse digest path (bits key) [] value sized in
      rw ((==_iff (bit_length path) 224).1 hl, loop) (ap some ((hash_eq_iff _ _).1 hr))

  -- `proof_for` on a valid map does not panic. It returns `None` exactly where the key has no value,
  -- and otherwise a proof of the key's value that `is_in` accepts for the map's root.
  pub proof_for-Says :
      (m : PatriciaMap) (key : Hash)
      → IsValid m
      → IsHash key
      → (found : Option PatriciaProof) × (proof_for digest m key ≡ some found) × Says m key found
  unfolding proof_for lookup
  proof_for-Says m key v hk =
      let (side, it, eb, hl) = IsHash-bits key hk in
      let p = prove_node-Proved digest m.root 223 side it (omega arith) v.shape v.fresh hl in
      answer side it eb hl p.found p.runs p.answers
    where
      answer :
          (side : Side) (it : List Side)
          → bits key ≡ side ∷ it
          → length it ≡ 223
          → (found : Option PathAndValue) → prove_node digest m.root side it ≡ some found
          → Answers digest found (value_node m.root side it) side it (root_hash m)
          → (o : Option PatriciaProof) × (proof_for digest m key ≡ some o) × Says m key o
      answer side it eb hl none runs a = (none, rw eb (rw runs refl), rw eb a)
      answer side it eb hl (some (path, value)) runs (a, l, r) = (
        some (record { claimed_key = key; claimed_value = value; path = path }),
        rw eb (rw runs refl),
        (
          rw eb a,
          refl,
          is_in-rebuild key value path (root_hash m) hk (omega arith)
              (ap (λ b. rebuild digest path b value) eb ∙ r),
        ),
      )

  -- The same insertions on a function.
  unfoldable pub replay : List (Hash × Hash) → (Hash → Option Hash) → Hash → Option Hash
  replay [] f = f
  replay ((key, value) ∷ it) f = replay it (λ k. if hash_eq k key then some value else f k)

  abbrev pub AllKeys : List (Hash × Hash) → Type 0
  AllKeys [] = Unit
  AllKeys ((key, value) ∷ it) = IsHash key × AllKeys it

  replay-same :
      (it : List (Hash × Hash)) (f g : Hash → Option Hash) (k : Hash)
      → f k ≡ g k
      → replay it f k ≡ replay it g k
  unfolding replay
  replay-same [] f g k e = e
  replay-same ((key, value) ∷ it) f g k e =
      replay-same it _ _ k (ap (λ o. if hash_eq k key then some value else o) e)

  extend-replay :
      (it : List (Hash × Hash)) (m : PatriciaMap)
      → IsValid m
      → AllKeys it
      → (m' : PatriciaMap) × (extend digest m it ≡ some m')
        × IsValid m'
        × ((k : Hash) → IsHash k → lookup m' k ≡ replay it (lookup m) k)
  unfolding extend replay
  extend-replay [] m v h = (m, refl, v, λ k hk. refl)
  extend-replay ((key, value) ∷ it) m v h =
      let ins = insert-Inserted m key value v h.0 in
      let (m', e, v', reads) = extend-replay it ins.result ins.valid h.1 in
      (m', rw ins.runs e, v', λ k hk. reads k hk ∙ replay-same it _ _ k (ins.reads k hk))

  -- `from_iter` on any list of hashes does not panic. It builds a valid map, which holds for each key
  -- the last value that the list has for it, and no other keys.
  pub from_iter-replay :
      (it : List (Hash × Hash))
      → AllKeys it
      → (m : PatriciaMap) × (from_iter digest it ≡ some m)
        × IsValid m
        × ((k : Hash) → IsHash k → lookup m k ≡ replay it (λ _. none) k)
  unfolding from_iter
  from_iter-replay it h =
      let (m, e, v, reads) = extend-replay it new new-IsValid h in
      (m, e, v, λ k hk. reads k hk ∙ replay-same it _ _ k (lookup-new k hk))

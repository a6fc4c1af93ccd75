-- ===== src/Patricia/Segment/Follow.antt =====
-- What `Segment::follow` reports, described by how the two lists share a prefix.
use samizdat.Prelude.{
  ℕ, ◌+◌, ◌%◌, ◌≤◌, ◌<◌, ◌≡◌, refl, ap, false, true, List, [], ◌∷◌, ◌++◌, Option, none, some, arith,
  Bool-cases, inl, inr, length, length-append, if◌then◌else◌,
}
use samizdat.Patricia.Segment.{
  Side, left, right, other, side_eq, FollowStatus, split, follow_node, found_leaf, follow_loop,
  Segment, segment_bits, follow,
}
use samizdat.Patricia.Segment.Bytes.{eq_of_side_eq}

-- A prefix taken off a list, `none` where the list does not begin with it.
unfoldable pub strip : List Side → List Side → Option (List Side)
strip [] it = some it
strip (t ∷ this) [] = none
strip (t ∷ this) (o ∷ it) = if side_eq t o then strip this it else none

-- How a segment's bits and the iterator relate when the loop of `follow`, begun at `base`, returns
-- this status and this rest.
pub data Follows (base : ℕ) (this it : List Side) : FollowStatus → List Side → Type 0 where
  leaf_end : it ≡ this → Follows base this it found_leaf []
  node_end :
      {s : Side} {rest : List Side}
      → it ≡ this ++ s ∷ rest
      → Follows base this it (follow_node s) rest
  differ :
      {o : Side} {rest : List Side} {position : ℕ} (shared suffix : List Side)
      → this ≡ shared ++ other o ∷ suffix
      → it ≡ shared ++ o ∷ rest
      → position ≡ base + length shared
      → Follows base this it (split o position) rest

Follows-cons :
    {base base' : ℕ} (t : Side) {this it : List Side} {status : FollowStatus} {rest : List Side}
    → base' ≡ base + 1
    → Follows base' this it status rest
    → Follows base (t ∷ this) (t ∷ it) status rest
Follows-cons t e (leaf_end p) = leaf_end (ap (λ l. t ∷ l) p)
Follows-cons t e (node_end p) = node_end (ap (λ l. t ∷ l) p)
Follows-cons t e (differ shared suffix p q h) =
    differ (t ∷ shared) suffix (ap (λ l. t ∷ l) p) (ap (λ l. t ∷ l) q) (omega arith)

other_of_ne : (t o : Side) → side_eq t o ≡ false → t ≡ other o
other_of_ne left left h = cc
other_of_ne left right h = refl
other_of_ne right left h = refl
other_of_ne right right h = cc

follow_loop-Follows :
    (this it : List Side) (base : ℕ)
    → length this ≤ length it
    → base + length this < 256
    → (status : FollowStatus) × (rest : List Side) × (follow_loop this it base
        ≡ some (status, rest))
      × Follows base this it status rest
unfolding follow_loop
follow_loop-Follows [] [] base h k = (found_leaf, [], refl, leaf_end refl)
follow_loop-Follows [] (o ∷ it) base h k = (follow_node o, it, refl, node_end refl)
follow_loop-Follows (t ∷ this) [] base h k = absurd (omega arith)
follow_loop-Follows (t ∷ this) (o ∷ it) base h k = elim (Bool-cases (side_eq t o)) [
  | inl same ↦
      let (status, rest, e, f) =
        follow_loop-Follows this it ((base + 1) % 256) (omega arith) (omega arith) in
      let eo : t ≡ o = eq_of_side_eq t o same in
      (status, rest, rw same e, rw (← eo) (Follows-cons t (omega arith) f))
  | inr ne ↦ (
    split o base,
    it,
    rw ne refl,
    differ [] this (ap (λ s. s ∷ this) (other_of_ne t o ne)) refl (omega arith),
  )
]

-- On an iterator that is no shorter than the segment, `follow` does not panic, and its status says
-- how the two relate.
pub follow-Follows :
    (s : Segment) (it : List Side)
    → length (segment_bits s) ≤ length it
    → length (segment_bits s) < 256
    → (status : FollowStatus) × (rest : List Side) × (follow s it ≡ some (status, rest))
      × Follows 0 (segment_bits s) it status rest
unfolding follow
follow-Follows s it h k = follow_loop-Follows (segment_bits s) it 0 h (omega arith)

pub side_eq_refl : (s : Side) → side_eq s s ≡ true
side_eq_refl left = refl
side_eq_refl right = refl

pub strip-append : (p rest : List Side) → strip p (p ++ rest) ≡ some rest
unfolding strip
strip-append [] rest = refl
strip-append (s ∷ p) rest = rw side_eq_refl (strip-append p rest)

pub strip_self : (p : List Side) → strip p p ≡ some []
unfolding strip
strip_self [] = refl
strip_self (s ∷ p) = rw side_eq_refl (strip_self p)

pub eq_of_strip : (p it rest : List Side) → strip p it ≡ some rest → it ≡ p ++ rest
unfolding strip
eq_of_strip [] it rest h = cc
eq_of_strip (s ∷ p) [] rest h = cc
eq_of_strip (s ∷ p) (o ∷ it) rest h = ground (arith, eq_of_side_eq s o, eq_of_strip p it rest)

-- Stripping a longer prefix is stripping its two parts.
pub strip-append_prefix :
    (p q it : List Side)
    → strip (p ++ q) it ≡ (elim (strip p it) [ none ↦ none | some rest ↦ strip q rest ])
unfolding strip
strip-append_prefix [] q it = refl
strip-append_prefix (s ∷ p) q [] = refl
strip-append_prefix (s ∷ p) q (o ∷ it) = elim (Bool-cases (side_eq s o)) [
  | inl e ↦ rw e (strip-append_prefix p q it)
  | inr e ↦ rw e refl
]

-- A key that begins with `p` has as many bits behind it as its length leaves.
pub strip-length :
    (p it' : List Side) (n k : ℕ)
    → length it' ≡ n
    → length p + k ≡ n
    → (rest : List Side) → strip p it' ≡ some rest
    → length rest ≡ k
strip-length p it' n k hl hk rest e =
    omega (arith, ap length (eq_of_strip p it' rest e), length-append p rest)

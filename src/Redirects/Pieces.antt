-- ===== src/Redirects/Pieces.antt =====
-- The pieces of the paths that are redirected to.
use samizdat.Prelude.{
  ℕ, suc, ◌≤◌, ◌<◌, ◌≡◌, refl, ◌∙◌, ap, arith, ◌⊎◌, inl, inr, Bool, true, false, Bool-cases, List,
  [], ◌∷◌, ◌++◌,
}
use samizdat.Hash.{hash_eq}
use samizdat.Text.{Str, slash, split, join, filter_nonempty, contains_double_slash}
use samizdat.Text.Split.{IsPiece, AllPieces, AllFull, split-append, split-join}
use samizdat.Redirects.{tilde, path_one, path_two, scan_item, scan}

-- How many of the pieces are tildes.
abbrev pub add_if : Bool → ℕ → ℕ
add_if true n = suc n
add_if false n = n

abbrev pub tildes : List Str → ℕ
tildes [] = 0
tildes (piece ∷ pieces) = add_if (hash_eq piece tilde) (tildes pieces)

pub tildes-split-join : (ps : List Str) → AllPieces ps → tildes (split (join ps)) ≡ tildes ps
unfolding join split hash_eq
tildes-split-join [] h = refl
tildes-split-join (p ∷ ps) h = ap tildes (split-join p ps h)

pub tildes-path_two :
    (a b rest : Str)
    → IsPiece a
    → IsPiece b
    → tildes (split (path_two a b rest)) ≡ tildes (a ∷ b ∷ split rest)
unfolding split hash_eq
tildes-path_two a b rest ha hb =
    ap tildes (split-append a (b ++ slash ∷ rest) ha ∙ ap (λ l. a ∷ l) (split-append b rest hb))

pub tildes-path_one :
    (a rest : Str) → IsPiece a → tildes (split (path_one a rest)) ≡ tildes (a ∷ split rest)
unfolding split hash_eq
tildes-path_one a rest ha = ap tildes (split-append a rest ha)

AllPieces-snoc : (ps : List Str) (p : Str) → AllPieces ps → IsPiece p → AllPieces (ps ++ p ∷ [])
AllPieces-snoc [] p h hp = (hp, tt)
AllPieces-snoc (q ∷ ps) p h hp = (h.0, AllPieces-snoc ps p h.1 hp)

tildes-snoc :
    (ps : List Str) (p : Str) → hash_eq p tilde ≡ false → tildes (ps ++ p ∷ []) ≡ tildes ps
tildes-snoc [] p h = rw h refl
tildes-snoc (q ∷ ps) p h = ap (add_if (hash_eq q tilde)) (tildes-snoc ps p h)

scan_item_pieces :
    (state : Bool × List Str) (item : Str)
    → AllPieces state.1
    → IsPiece item
    → tildes state.1 ≡ 0
    → AllPieces (scan_item state item).1 × (tildes (scan_item state item).1 ≡ 0)
scan_item_pieces (found, after) item ha hi none_yet = elim (Bool-cases (hash_eq item tilde)) [
  | inl h ↦ rw h (tt, refl)
  | inr h ↦ rw h (AllPieces-snoc after item ha hi, tildes-snoc after item h ∙ none_yet)
]

scan_item_found :
    (state : Bool × List Str) (item : Str) (items : List Str)
    → (scan_item state item).0 ≡ true
    → (state.0 ≡ true) ⊎ (0 < tildes (item ∷ items))
scan_item_found (found, after) item items e = elim (Bool-cases (hash_eq item tilde)) [
  | inl h ↦ inr (rw h (omega arith))
  | inr h ↦ inl (rw h at e)
]

add_if_le : (b : Bool) (n : ℕ) → n ≤ add_if b n
add_if_le true n = omega arith
add_if_le false n = omega arith

-- What the loop collects has no tildes, and if it found one there was one.
pub scan_lem :
    (state : Bool × List Str) (items : List Str)
    → AllPieces state.1
    → AllPieces items
    → tildes state.1 ≡ 0
    → AllPieces (scan state items).1
      × (tildes (scan state items).1 ≡ 0)
      × ((scan state items).0 ≡ true → (state.0 ≡ true) ⊎ (0 < tildes items))
unfolding scan
scan_lem state [] ha hi none_yet = (ha, none_yet, λ e. inl e)
scan_lem state (item ∷ items) ha hi none_yet =
    let (kept, none_now) = scan_item_pieces state item ha hi.0 none_yet in
    let (pieces, count, was) = scan_lem (scan_item state item) items kept hi.1 none_now in
    (
      pieces,
      count,
      λ e. elim (was e) [
        | inl f ↦ scan_item_found state item items f
        | inr some_tilde ↦
            inr (omega (arith, some_tilde, add_if_le (hash_eq item tilde) (tildes items)))
      ],
    )

-- Doubled slashes are within what is joined, and not between full pieces.
double-piece :
    (p rest : Str)
    → IsPiece p
    → contains_double_slash (p ++ slash ∷ rest) ≡ contains_double_slash (slash ∷ rest)
unfolding contains_double_slash
double-piece [] rest h = refl
double-piece (c ∷ []) rest h = rw h.0 refl
double-piece (c ∷ d ∷ p) rest h = rw h.0 (double-piece (d ∷ p) rest h.1)

single-piece : (p : Str) → IsPiece p → contains_double_slash p ≡ false
unfolding contains_double_slash
single-piece [] h = refl
single-piece (c ∷ []) h = refl
single-piece (c ∷ d ∷ p) h = rw h.0 (single-piece (d ∷ p) h.1)

-- A slash in front of joined full pieces makes no double slash.
pub double-slash-join :
    (ps : List Str) → AllPieces ps → AllFull ps → contains_double_slash (slash ∷ join ps) ≡ false
unfolding contains_double_slash join
double-slash-join [] h full = refl
double-slash-join ([] ∷ ps) h full = absurd (cc (full.0))
double-slash-join ((c ∷ p) ∷ []) h full = rw h.0.0 (single-piece (c ∷ p) h.0)
double-slash-join ((c ∷ p) ∷ q ∷ ps) h full =
    rw h.0.0 (double-piece (c ∷ p) (join (q ∷ ps)) h.0 ∙ double-slash-join (q ∷ ps) h.1 full.1)

pub tildes-filter_nonempty : (ps : List Str) → tildes (filter_nonempty ps) ≡ tildes ps
unfolding filter_nonempty hash_eq
tildes-filter_nonempty [] = refl
tildes-filter_nonempty ([] ∷ ps) = tildes-filter_nonempty ps
tildes-filter_nonempty ((c ∷ p) ∷ ps) =
    ap (add_if (hash_eq (c ∷ p) tilde)) (tildes-filter_nonempty ps)

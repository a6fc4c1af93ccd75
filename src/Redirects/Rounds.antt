-- ===== src/Redirects/Rounds.antt =====
-- The loop of the redirects ends.
use samizdat.Prelude.{
  ℕ, zero, suc, ◌+◌, ◌*◌, ◌≤◌, ◌<◌, ◌≡◌, ◌≢◌, refl, sym, ◌∙◌, arith, ◌⊎◌, inl, inr, Bool, true,
  false, Bool-cases, List, [], ◌∷◌, Option, none, some, eq_of_some, if◌then◌else◌,
}
use samizdat.Hash.{hash_eq}
use samizdat.Text.{
  Str, slash, split, join, filter_nonempty, starts_with_slash, contains_double_slash,
}
use samizdat.Text.Split.{
  AllPieces, split-cons, split-AllPieces, filter_nonempty-AllFull, filter_nonempty-AllPieces,
}
use samizdat.Redirects.{
  tilde, is_entity, path_one, path_two, scan, tail_after, tilde_of, maybe_redirect_tilde,
  tilde_identity_of, maybe_redirect_tilde_identity, is_redirectable_entity, base_of,
  maybe_redirect_base, base_identity_of, maybe_redirect_base_identity, maybe_redirect_empty,
  or_else, maybe_redirect, Redirect, rejected, redirect_to, no_more, redirect_next, redirect_loop,
  general_redirect,
}
use samizdat.Redirects.Pieces.{
  add_if, tildes, tildes-split-join, tildes-path_two, tildes-path_one, scan_lem, double-slash-join,
  tildes-filter_nonempty,
}

-- How far a path is from having a slash in front and no doubled ones.
abbrev pub phase : Str → ℕ
phase path = if starts_with_slash path then (if contains_double_slash path then 1 else 0) else 2

abbrev pub measure : Str → ℕ
measure path = 3 * tildes (split path) + phase path

phase_le : (path : Str) → phase path ≤ 2
phase_le path = ground arith

tail_inv :
    (redirect : Str → Str) (state : Bool × List Str) (new : Str)
    → tail_after redirect state ≡ some new
    → (state.0 ≡ true) × (redirect (join state.1) ≡ new)
tail_inv redirect (true, after) new h = (refl, eq_of_some _ _ h)
tail_inv redirect (false, after) new h = absurd (cc h)

add_less : (a b : Bool) (n : ℕ) → 0 < n → add_if a (add_if b 0) < add_if a (add_if b n)
add_less true true n h = omega (arith, h)
add_less true false n h = omega (arith, h)
add_less false true n h = omega (arith, h)
add_less false false n h = omega (arith, h)

add_less_one : (a : Bool) (n : ℕ) → 0 < n → add_if a 0 < add_if a n
add_less_one true n h = omega (arith, h)
add_less_one false n h = omega (arith, h)

-- The tilde redirects take away at least one tilde.
scanned :
    (items : List Str)
    → AllPieces items
    → (scan (false, []) items).0 ≡ true
    → (tildes (split (join (scan (false, []) items).1)) ≡ 0) × (0 < tildes items)
scanned items h found =
    let (pieces, count, was) = scan_lem (false, []) items tt h refl in
    (
      tildes-split-join (scan (false, []) items).1 pieces ∙ count,
      elim (was found) [ inl e ↦ absurd (cc e) | inr some_tilde ↦ some_tilde ],
    )

tilde_of_less :
    (pieces : List Str) (new : Str)
    → AllPieces pieces
    → tilde_of pieces ≡ some new
    → tildes (split new) < tildes pieces
tilde_of_less [] new h e = absurd (cc e)
tilde_of_less (kind ∷ []) new h e = absurd (cc e)
tilde_of_less (kind ∷ identifier ∷ items) new h e = elim (Bool-cases (is_entity kind)) [
  | inl is ↦
      let (found, same) =
        tail_inv (path_two kind identifier) (scan (false, []) items) new (rw is at e) in
      let (gone, had) = scanned items h.1.1 found in
      rw (sym same) (
        rw (tildes-path_two kind identifier (join (scan (false, []) items).1) h.0 h.1.0)
          (rw gone (add_less (hash_eq kind tilde) (hash_eq identifier tilde) (tildes items) had)))
  | inr is ↦ absurd (cc (rw is at e))
]

tilde_identity_of_less :
    (pieces : List Str) (new : Str)
    → AllPieces pieces
    → tilde_identity_of pieces ≡ some new
    → tildes (split new) < tildes pieces
tilde_identity_of_less [] new h e = absurd (cc e)
tilde_identity_of_less (identity ∷ items) new h e = elim (Bool-cases (is_entity identity)) [
  | inl is ↦ absurd (cc (rw is at e))
  | inr is ↦
      let (found, same) = tail_inv (path_one identity) (scan (false, []) items) new (rw is at e) in
      let (gone, had) = scanned items h.1 found in
      rw (sym same) (
        rw (tildes-path_one identity (join (scan (false, []) items).1) h.0)
          (rw gone (add_less_one (hash_eq identity tilde) (tildes items) had)))
]

cons_parts : (a b : Str) (as' bs : List Str) → a ∷ as' ≡ b ∷ bs → (a ≡ b) × (as' ≡ bs)
cons_parts a b as' bs e = (cc e, cc e)

-- A path with a slash in front has an empty first piece and another one.
pieces_behind_slash :
    (path p : Str) (ps : List Str)
    → starts_with_slash path ≡ true
    → split path ≡ p ∷ ps
    → (p ≡ []) × (q : Str) × (qs : List Str) × (ps ≡ q ∷ qs)
unfolding split
pieces_behind_slash [] p ps h e = absurd (cc h)
pieces_behind_slash (c ∷ s) p ps h e =
    let (q, qs, more) = split-cons s in
    let (first, others) = cons_parts [] p (split s) ps (rw h at e) in
    (sym first, q, qs, sym others ∙ more)

-- A route has a first piece that is not empty.
redirectable-full : (kind : Str) → is_redirectable_entity kind ≡ true → kind ≢ []
unfolding hash_eq
redirectable-full [] h e = cc h
redirectable-full (c ∷ s) h e = cc e

phase_base : (path new : Str) → starts_with_slash path ≡ false → phase (slash ∷ new) < phase path
phase_base path new h = rw h (ground arith)

base_of_same :
    (path : Str) (pieces : List Str) (new : Str)
    → split path ≡ pieces
    → AllPieces pieces
    → base_of pieces ≡ some new
    → (tildes (split new) ≡ tildes pieces) × (phase new < phase path)
unfolding split hash_eq
base_of_same path [] new s h e = absurd (cc e)
base_of_same path (kind ∷ []) new s h e = absurd (cc e)
base_of_same path (kind ∷ identifier ∷ item ∷ items) new s h e = absurd (cc e)
base_of_same path (kind ∷ identifier ∷ []) new s h e =
    elim (Bool-cases (is_redirectable_entity kind)) [
      | inr is ↦ absurd (cc (rw is at e))
      | inl is ↦
          let same = eq_of_some (path_two kind identifier []) new (rw is at e) in
          rw (sym same) (
            tildes-path_two kind identifier [] h.0 h.1.0,
            elim (Bool-cases (starts_with_slash path)) [
              | inl starts ↦ absurd (
                  redirectable-full kind is
                    (pieces_behind_slash path kind (identifier ∷ []) starts s).0)
              | inr bare ↦ phase_base path _ bare
            ],
          )
    ]

base_identity_of_same :
    (path : Str) (pieces : List Str) (new : Str)
    → split path ≡ pieces
    → AllPieces pieces
    → base_identity_of pieces ≡ some new
    → (tildes (split new) ≡ tildes pieces) × (phase new < phase path)
unfolding split hash_eq
base_identity_of_same path [] new s h e = absurd (cc e)
base_identity_of_same path (identity ∷ item ∷ items) new s h e = absurd (cc e)
base_identity_of_same path (identity ∷ []) new s h e = elim (Bool-cases (is_entity identity)) [
  | inl is ↦ absurd (cc (rw is at e))
  | inr is ↦
      let same = eq_of_some (path_one identity []) new (rw is at e) in
      rw (sym same) (
        tildes-path_one identity [] h.0,
        elim (Bool-cases (starts_with_slash path)) [
          | inl starts ↦
              let (first, q, qs, none_left) = pieces_behind_slash path identity [] starts s in
              absurd (cc none_left)
          | inr bare ↦ phase_base path _ bare
        ],
      )
]

empty_same :
    (path new : Str)
    → maybe_redirect_empty path ≡ some new
    → (tildes (split new) ≡ tildes (split path)) × (phase new < phase path)
unfolding split hash_eq
empty_same path new e = elim (Bool-cases (contains_double_slash path)) [
  | inr h ↦ absurd (cc (rw h at e))
  | inl h ↦
      let full = filter_nonempty (split path) in
      let pieces = filter_nonempty-AllPieces (split path) (split-AllPieces path) in
      let same = eq_of_some (slash ∷ join full) new (rw h at e) in
      rw (sym same) (
        tildes-split-join full pieces ∙ tildes-filter_nonempty (split path),
        rw (h, double-slash-join full pieces (filter_nonempty-AllFull (split path))) (ground arith),
      )
]

or_else_inv :
    (m other : Option Str) (new : Str)
    → or_else m other ≡ some new
    → (m ≡ some new) ⊎ (other ≡ some new)
or_else_inv none other new h = inr h
or_else_inv (some path) other new h = inl h

-- Each redirect brings a path nearer to one that is not redirected.
maybe_redirect_less : (path new : Str) → maybe_redirect path ≡ some new → measure new < measure path
unfolding maybe_redirect
maybe_redirect_less path new e =
    let pieces = split-AllPieces path in
    elim (or_else_inv (maybe_redirect_tilde path) _ new e) [
      | inl a ↦ omega (arith, tilde_of_less (split path) new pieces a, phase_le new)
      | inr r1 ↦ elim (or_else_inv (maybe_redirect_tilde_identity path) _ new r1) [
        | inl a ↦ omega (arith, tilde_identity_of_less (split path) new pieces a, phase_le new)
        | inr r2 ↦ elim (or_else_inv (maybe_redirect_base path) _ new r2) [
          | inl a ↦
              let (same, nearer) = base_of_same path (split path) new refl pieces a in
              omega (arith, same, nearer)
          | inr r3 ↦ elim (or_else_inv (maybe_redirect_base_identity path) _ new r3) [
            | inl a ↦
                let (same, nearer) = base_identity_of_same path (split path) new refl pieces a in
                omega (arith, same, nearer)
            | inr a ↦ let (same, nearer) = empty_same path new a in omega (arith, same, nearer)
          ]
        ]
      ]
    ]

-- The loop ends with a path that is not redirected.
abbrev pub Settled : Str → Redirect → Type 0
Settled path ending =
    ((ending ≡ rejected) × (maybe_redirect path ≡ none))
    ⊎ ((final : Str) × (ending ≡ redirect_to final) × (maybe_redirect final ≡ none))

no_more-Settled :
    (path : Str) (was : Bool) → maybe_redirect path ≡ none → Settled path (no_more path was)
no_more-Settled path true h = inr (path, refl, h)
no_more-Settled path false h = inl (refl, h)

moved :
    (path new : Str) (ending : Redirect)
    → ending ≢ rejected
    → Settled new ending
    → Settled path ending
moved path new ending kept (inl s) = absurd (kept s.0)
moved path new ending kept (inr s) = inr s

next_kept :
    (path : Str) (continue : Str → Redirect) (m : Option Str)
    → ((new : Str) → continue new ≢ rejected)
    → redirect_next (redirect_to path) continue m ≢ rejected
next_kept path continue none kept e = cc e
next_kept path continue (some new) kept e = kept new e

redirect_loop-kept : (fuel : ℕ) (path : Str) → redirect_loop fuel path true ≢ rejected
unfolding redirect_loop
redirect_loop-kept zero path e = cc e
redirect_loop-kept (suc fuel) path e =
    next_kept path (λ new. redirect_loop fuel new true) (maybe_redirect path)
      (λ new e'. redirect_loop-kept fuel new e') e

redirect_next-Settled :
    (fuel : ℕ) (path : Str) (was : Bool) (m : Option Str)
    → maybe_redirect path ≡ m
    → ((new : Str) → maybe_redirect path ≡ some new → Settled new (redirect_loop fuel new true))
    → Settled path (redirect_next (no_more path was) (λ new. redirect_loop fuel new true) m)
redirect_next-Settled fuel path was none e more = no_more-Settled path was e
redirect_next-Settled fuel path was (some new) e more =
    moved path new (redirect_loop fuel new true) (redirect_loop-kept fuel new) (more new e)

redirect_loop-Settled :
    (fuel : ℕ) (path : Str) (was : Bool)
    → measure path < fuel
    → Settled path (redirect_loop fuel path was)
unfolding redirect_loop
redirect_loop-Settled zero path was h = absurd (omega (arith, h))
redirect_loop-Settled (suc fuel) path was h =
    redirect_next-Settled fuel path was (maybe_redirect path) refl (λ new e.
      redirect_loop-Settled fuel new true (omega (arith, h, maybe_redirect_less path new e)))

-- The loop of the redirects ends for every path, within three rounds for each piece that is a tilde and
-- three more: the request is passed on if the path is not redirected, or else redirected to a path
-- that the same rules leave as it is.
pub general_redirect-Settled :
    (fuel : ℕ) (path : Str)
    → 3 * tildes (split path) + 2 < fuel
    → Settled path (general_redirect fuel path)
general_redirect-Settled fuel path h =
    redirect_loop-Settled fuel path false (omega (arith, h, phase_le path))

-- ===== src/Text/Split.antt =====
-- `split` and `join`.
use samizdat.Prelude.{
  ℕ, ◌≡◌, refl, ap, sym, ◌∙◌, false, ◌&&◌, ◌||◌, List, [], ◌∷◌, ◌++◌, arith, ◌==◌, ==_iff,
  if◌then◌else◌, Bool-cases, inl, inr,
}
use samizdat.Text.{
  Str, slash, push_front, split, join, is_empty, filter_nonempty, starts_with_slash,
  ends_with_slash, contains_double_slash,
}

-- No slash in the text.
abbrev pub IsPiece : Str → Type 0
IsPiece [] = Unit
IsPiece (c ∷ s) = ((c == slash) ≡ false) × IsPiece s

abbrev pub AllPieces : List Str → Type 0
AllPieces [] = Unit
AllPieces (p ∷ ps) = IsPiece p × AllPieces ps

-- The first piece and the others.
pub split-cons : (s : Str) → (p : Str) × (ps : List Str) × (split s ≡ p ∷ ps)
unfolding split
split-cons [] = ([], [], refl)
split-cons (c ∷ s) =
    let (p, ps, e) = split-cons s in
    elim (Bool-cases (c == slash)) [
      | inl h ↦ ([], split s, rw h refl)
      | inr h ↦ (c ∷ p, ps, rw (h, e) refl)
    ]

-- A piece in front of a slash is split off.
pub split-append : (p : Str) (rest : Str) → IsPiece p → split (p ++ slash ∷ rest) ≡ p ∷ split rest
unfolding split
split-append [] rest h = refl
split-append (c ∷ p) rest h = rw (h.0, split-append p rest h.1) refl

pub split-piece : (p : Str) → IsPiece p → split p ≡ p ∷ []
unfolding split
split-piece [] h = refl
split-piece (c ∷ p) h = rw (h.0, split-piece p h.1) refl

-- Splitting what was joined from pieces gives them back.
pub split-join : (p : Str) (ps : List Str) → AllPieces (p ∷ ps) → split (join (p ∷ ps)) ≡ p ∷ ps
unfolding join
split-join p [] h = split-piece p h.0
split-join p (q ∷ ps) h = split-append p (join (q ∷ ps)) h.0 ∙ ap (λ l. p ∷ l) (split-join q ps h.1)

pub split-AllPieces : (s : Str) → AllPieces (split s)
unfolding split
split-AllPieces [] = (tt, tt)
split-AllPieces (c ∷ s) =
    let (p, ps, e) = split-cons s in
    let ih = rw e at (split-AllPieces s) in
    elim (Bool-cases (c == slash)) [
      | inl h ↦ rw h (tt, split-AllPieces s)
      | inr h ↦ rw (h, e) ((h, ih.0), ih.1)
    ]

join-push_front :
    (c : ℕ) (p : Str) (ps : List Str) → join (push_front c (p ∷ ps)) ≡ c ∷ join (p ∷ ps)
unfolding join
join-push_front c p [] = refl
join-push_front c p (q ∷ ps) = refl

-- Joining what was split gives the text back.
pub join-split : (s : Str) → join (split s) ≡ s
unfolding split join
join-split [] = refl
join-split (c ∷ s) =
    let (p, ps, e) = split-cons s in
    let ih = rw e at (join-split s) in
    elim (Bool-cases (c == slash)) [
      | inl h ↦ let same = (==_iff c slash).0 h in rw (h, e, ← same) (ap (λ l. c ∷ l) ih)
      | inr h ↦ rw (h, e) (join-push_front c p ps ∙ ap (λ l. c ∷ l) ih)
    ]

-- No piece is empty.
abbrev pub AllFull : List Str → Type 0
AllFull [] = Unit
AllFull (p ∷ ps) = (is_empty p ≡ false) × AllFull ps

pub filter_nonempty-AllFull : (ps : List Str) → AllFull (filter_nonempty ps)
unfolding filter_nonempty
filter_nonempty-AllFull [] = tt
filter_nonempty-AllFull ([] ∷ ps) = filter_nonempty-AllFull ps
filter_nonempty-AllFull ((c ∷ p) ∷ ps) = (refl, filter_nonempty-AllFull ps)

pub filter_nonempty-AllPieces : (ps : List Str) → AllPieces ps → AllPieces (filter_nonempty ps)
unfolding filter_nonempty
filter_nonempty-AllPieces [] h = tt
filter_nonempty-AllPieces ([] ∷ ps) h = filter_nonempty-AllPieces ps h.1
filter_nonempty-AllPieces ((c ∷ p) ∷ ps) h = (h.0, filter_nonempty-AllPieces ps h.1)

pub filter_nonempty_id : (ps : List Str) → AllFull ps → filter_nonempty ps ≡ ps
unfolding filter_nonempty
filter_nonempty_id [] h = refl
filter_nonempty_id ([] ∷ ps) h = absurd (cc (h.0))
filter_nonempty_id ((c ∷ p) ∷ ps) h = ap (λ l. (c ∷ p) ∷ l) (filter_nonempty_id ps h.1)

-- With no slash at the end and no two slashes together, all pieces but perhaps the first are full,
-- and the first is full if the text is not empty and has no slash in front.
abbrev FullTail : Str → List Str → Type 0
FullTail s [] = Unit
FullTail s (p ∷ ps) = (is_empty p ≡ (is_empty s || starts_with_slash s)) × AllFull ps

split_step :
    (c : ℕ) (s : Str)
    → split (c ∷ s) ≡ (if c == slash then [] ∷ split s else push_front c (split s))
unfolding split
split_step c s = refl

no_slashes :
    (c x : ℕ) (s : Str)
    → ends_with_slash (c ∷ x ∷ s) ≡ false
    → contains_double_slash (c ∷ x ∷ s) ≡ false
    → (ends_with_slash (x ∷ s) ≡ false)
      × (contains_double_slash (x ∷ s) ≡ false)
      × ((c == slash && x == slash) ≡ false)
unfolding ends_with_slash contains_double_slash
no_slashes c x s e d = (e, ground arith, ground arith)

full_step :
    (c x : ℕ) (s p : Str) (ps : List Str)
    → (c == slash && x == slash) ≡ false
    → FullTail (x ∷ s) (p ∷ ps)
    → FullTail (c ∷ x ∷ s) (if c == slash then [] ∷ p ∷ ps else push_front c (p ∷ ps))
full_step c x s p ps d h = elim (Bool-cases (c == slash)) [
  | inl e ↦ rw e (sym e, (h.0 ∙ (rw e at d), h.1))
  | inr e ↦ rw e (sym e, h.1)
]

split_full :
    (s : Str) → ends_with_slash s ≡ false → contains_double_slash s ≡ false → FullTail s (split s)
split_full [] e d = unfold split in (refl, tt)
split_full (c ∷ []) e d = unfold split ends_with_slash in (rw e (rw e refl, tt))
split_full (c ∷ x ∷ s) e d =
    let (p, ps, es) = split-cons (x ∷ s) in
    let (e', d', apart) = no_slashes c x s e d in
    rw (split_step c (x ∷ s), es) (full_step c x s p ps apart (rw es at (split_full (x ∷ s) e' d')))

-- A text with none of the three kinds of spare slashes has only full pieces.
pub split-AllFull :
    (c : ℕ) (s : Str)
    → ends_with_slash (c ∷ s) ≡ false
    → contains_double_slash (c ∷ s) ≡ false
    → starts_with_slash (c ∷ s) ≡ false
    → AllFull (split (c ∷ s))
split-AllFull c s e d b =
    let (p, ps, es) = split-cons (c ∷ s) in
    let full = rw es at (split_full (c ∷ s) e d) in rw es (full.0 ∙ b, full.1)

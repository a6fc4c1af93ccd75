-- ===== src/Collection/Paths.antt =====
-- Canonical item paths: `normalize` of node/src/models/collection.rs.
use samizdat.Prelude.{
  ℕ, ◌↔◌, ◌≡◌, refl, ap, sym, ◌∙◌, Bool, true, false, ◌||◌, List, [], ◌∷◌, Bool-cases, inl, inr,
}
use samizdat.Text.{
  Str, split, join, filter_nonempty, starts_with_slash, ends_with_slash, contains_double_slash,
}
use samizdat.Text.Split.{
  AllPieces, AllFull, split-join, split-AllPieces, join-split, filter_nonempty-AllFull,
  filter_nonempty-AllPieces, filter_nonempty_id, split-AllFull,
}
use samizdat.Collection.{normalize}

or_false : (a b c : Bool) → (a || (b || c)) ≡ false → (a ≡ false) × (b ≡ false) × (c ≡ false)
or_false false false false h = (refl, refl, refl)
or_false false false true h = absurd (cc (h))
or_false false true c h = absurd (cc (h))
or_false true b c h = absurd (cc (h))

normalize_kept :
    (c : ℕ) (s : Str)
    → ends_with_slash (c ∷ s) ≡ false
    → starts_with_slash (c ∷ s) ≡ false
    → contains_double_slash (c ∷ s) ≡ false
    → c ∷ s ≡ join (filter_nonempty (split (c ∷ s)))
normalize_kept c s e b d =
    sym (join-split (c ∷ s))
    ∙ ap join (sym (filter_nonempty_id (split (c ∷ s)) (split-AllFull c s e d b)))

-- The test for spare slashes only saves work: a path's canonical form is always its non-empty
-- pieces between slashes, joined by single slashes.
pub normalize_lem : (s : Str) → normalize s ≡ join (filter_nonempty (split s))
normalize_lem [] =
    unfold join normalize filter_nonempty ends_with_slash split contains_double_slash in refl
normalize_lem (c ∷ s) = elim (Bool-cases (spare (c ∷ s))) [
  | inl h ↦ unfold normalize in rw h refl
  | inr h ↦
      let (e, b, d) =
        or_false (ends_with_slash (c ∷ s)) (starts_with_slash (c ∷ s))
          (contains_double_slash (c ∷ s)) h in
      unfold normalize in rw h (normalize_kept c s e b d)
]
  where
    spare : Str → Bool
    spare name = ends_with_slash name || (starts_with_slash name || contains_double_slash name)

canonical : (ps : List Str) → AllFull ps → AllPieces ps → filter_nonempty (split (join ps)) ≡ ps
canonical [] f a = unfold join split filter_nonempty in refl
canonical (p ∷ ps) f a = ap filter_nonempty (split-join p ps a) ∙ filter_nonempty_id (p ∷ ps) f

-- The non-empty pieces of a canonical form are those of the text it was made of, and a canonical form
-- is its own canonical form.
pub normalize-normalize :
    (s : Str)
    → (filter_nonempty (split (normalize s)) ≡ filter_nonempty (split s))
      × (normalize (normalize s) ≡ normalize s)
normalize-normalize s =
    let pieces = filter_nonempty (split s) in
    let same =
      ap (λ n. filter_nonempty (split n)) (normalize_lem s)
      ∙ canonical pieces (filter_nonempty-AllFull (split s))
          (filter_nonempty-AllPieces (split s) (split-AllPieces s)) in
    (same, normalize_lem (normalize s) ∙ ap join same ∙ sym (normalize_lem s))

-- Two names have one canonical form exactly when they have the same non-empty pieces.
pub normalize_iff :
    (s t : Str)
    → (normalize s ≡ normalize t) ↔ (filter_nonempty (split s) ≡ filter_nonempty (split t))
normalize_iff s t = (
  λ e.
      sym (normalize-normalize s).0
      ∙ ap (λ n. filter_nonempty (split n)) e
      ∙ (normalize-normalize t).0,
  λ e. normalize_lem s ∙ ap join e ∙ sym (normalize_lem t),
)

-- ===== src/Hub/Resolving/Riddles.antt =====
-- What a candidate shows when its riddles are accepted.
use samizdat.Prelude.{
  suc, ◌-◌, ◌<◌, ◌≡◌, refl, sym, ◌∙◌, ap, ap₂, ◌↔◌, arith, ◌&&◌, true, List, [], ◌∷◌, ◌++◌, map,
  length, get_elem?, leb, and_left, and_right, leb→le, le→leb, length-append,
}
use samizdat.Hash.{Hash, hash_eq_iff}
use samizdat.Riddle.{Riddle}
use samizdat.Hub.Resolving.{riddle_eq, nonces_match, is_riddle, validate_riddles}

-- The riddles start with riddles for the nonces, and the given riddle comes next.
abbrev pub Answers : Riddle → List Hash → List Riddle → Type 0
Answers riddle nonces riddles =
    (before : List Riddle) × (rest : List Riddle) × (riddles ≡ before ++ (riddle ∷ rest))
    × (map (λ r. r.rand) before ≡ nonces)

pub riddle_eq_iff : (a b : Riddle) → (riddle_eq a b ≡ true) ↔ (a ≡ b)
riddle_eq_iff a b = (
  λ h.
      let p = (hash_eq_iff a.rand b.rand).0 (ground arith) in
      let q = (hash_eq_iff a.hash b.hash).0 (ground arith) in
      λ i. record { rand = p i; hash = q i },
  λ h. ground (
    arith,
    (hash_eq_iff a.rand b.rand).1 (ap (λ r. r.rand) h),
    (hash_eq_iff a.hash b.hash).1 (ap (λ r. r.hash) h),
  ),
)

nonces_match-Answers :
    (riddle : Riddle) (nonces : List Hash) (riddles : List Riddle)
    → length nonces < length riddles
    → is_riddle riddle (get_elem? riddles (length nonces)) ≡ true
    → nonces_match riddles (nonces ++ riddle.rand ∷ []) ≡ true
    → Answers riddle nonces riddles
unfolding nonces_match
nonces_match-Answers riddle nonces [] le is matches = absurd (omega (arith, le))
nonces_match-Answers riddle [] (first ∷ riddles) le is matches =
    ([], riddles, ap (λ r. r ∷ riddles) ((riddle_eq_iff first riddle).0 is), refl)
nonces_match-Answers riddle (nonce ∷ nonces) (first ∷ riddles) le is matches =
    let p = (hash_eq_iff first.rand nonce).0 (ground arith) in
    let (before, rest, shown, same) =
      nonces_match-Answers riddle nonces riddles (omega (arith, le)) is (ground arith) in
    (first ∷ before, rest, ap (λ l. first ∷ l) shown, ap₂ (λ r l. r ∷ l) p same)

nonces_match-nil : (riddles : List Riddle) → nonces_match riddles [] ≡ true
unfolding nonces_match
nonces_match-nil [] = refl
nonces_match-nil (riddle ∷ riddles) = refl

Answers-nonces_match :
    (riddle : Riddle) (before rest : List Riddle)
    → (is_riddle riddle (get_elem? (before ++ (riddle ∷ rest)) (length before)) ≡ true)
      × (nonces_match (before ++ (riddle ∷ rest)) (map (λ r. r.rand) before ++ riddle.rand ∷ [])
          ≡ true)
unfolding nonces_match
Answers-nonces_match riddle [] rest = (
  (riddle_eq_iff riddle riddle).1 refl,
  ground (arith, (hash_eq_iff riddle.rand riddle.rand).1 refl, nonces_match-nil rest),
)
Answers-nonces_match riddle (first ∷ before) rest =
    let (is, matches) = Answers-nonces_match riddle before rest in
    (is, ground (arith, (hash_eq_iff first.rand first.rand).1 refl, matches))

length-rands : (riddles : List Riddle) → length (map (λ r. r.rand) riddles) ≡ length riddles
length-rands [] = refl
length-rands (riddle ∷ riddles) = ap (λ n. suc n) (length-rands riddles)

-- The index of the last of the nonces.
last_index : (nonces : List Hash) (nonce : Hash) → length (nonces ++ nonce ∷ []) - 1 ≡ length nonces
last_index nonces nonce = rw (length-append nonces (nonce ∷ [])) (omega arith)

-- A hub accepts the riddles of a candidate if and only if they begin with riddles for the nonces of
-- the hubs before it, in their order, and the riddle that it took from the resolution itself follows;
-- any others may come after.
pub validate_riddles_iff :
    (riddle : Riddle) (nonces : List Hash) (riddles : List Riddle)
    → (validate_riddles riddle (nonces ++ riddle.rand ∷ []) riddles ≡ true)
      ↔ Answers riddle nonces riddles
unfolding validate_riddles
validate_riddles_iff riddle nonces riddles = (
  λ h.
      let nonces' = nonces ++ riddle.rand ∷ [] in
      let is = is_riddle riddle (get_elem? riddles (length nonces' - 1)) in
      let test = leb (length nonces') (length riddles) in
      let first_two = and_left (test && is) (nonces_match riddles nonces') h in
      nonces_match-Answers riddle nonces riddles
        (omega (
          arith,
          leb→le (length nonces') (length riddles) (and_left test is first_two),
          length-append nonces (riddle.rand ∷ []),
        ))
        (ap (λ n. is_riddle riddle (get_elem? riddles n)) (sym (last_index nonces riddle.rand))
          ∙ and_right test is first_two)
        (and_right (test && is) (nonces_match riddles nonces') h),
  λ (before, rest, shown, same).
      let (is, matches) = Answers-nonces_match riddle before rest in
      rw (shown, sym same)
        (ground (
          arith,
          le→leb (length (map (λ r. r.rand) before ++ riddle.rand ∷ []))
              (length (before ++ (riddle ∷ rest)))
              (omega (
                arith,
                length-append (map (λ r. r.rand) before) (riddle.rand ∷ []),
                length-append before (riddle ∷ rest),
                length-rands before,
              )),
          ap (λ n. is_riddle riddle (get_elem? (before ++ (riddle ∷ rest)) n))
                (last_index (map (λ r. r.rand) before) riddle.rand ∙ length-rands before)
              ∙ is,
          matches,
        )),
)

-- ===== src/Hub/Resolving/Chain.antt =====
-- A resolution that goes down a chain of hubs, and the candidate that comes back through them.
use samizdat.Prelude.{
  ℕ, zero, suc, ◌+◌, ◌≤◌, ◌<◌, ◌≡◌, refl, sym, ◌∙◌, ap, arith, true, List, [], ◌∷◌, ◌++◌, map,
  Option, some, length, ◌>>=◌, append-nil, append_assoc, length-append,
}
use samizdat.Hash.{Hash}
use samizdat.Riddle.{Riddle, new_with_nonce}
use samizdat.Rpc.{Resolution}
use samizdat.Hub.Resolving.{step_down, validate_riddles}
use samizdat.Hub.Resolving.Riddles.{validate_riddles_iff}
use samizdat.Hub.Room.Peers.{Every}
use samizdat.Hub.Resolving.Candidates.{pop_last-snoc}

-- The hubs of a chain, the first one first: each takes its riddle from the resolution that it was
-- given. The result has what each will check a candidate against, and the resolution for the node.
unfoldable pub descend : ℕ → Resolution → Option (List (Riddle × List Hash) × Resolution)
descend zero resolution = some ([], resolution)
descend (suc hubs) resolution = do
  (riddle, below) ← step_down resolution
  (checks, last) ← descend hubs below
  some ((riddle, below.validation_nonces) ∷ checks, last)

module _ (digest : List ℕ → Hash) where
  -- The validation riddles that a node returns which knows the hash.
  abbrev pub riddles_of : Hash → List Hash → List Riddle
  riddles_of hash nonces = map (λ nonce. new_with_nonce digest hash nonce) nonces

  riddles_of-append :
      (hash : Hash) (xs ys : List Hash)
      → riddles_of hash (xs ++ ys) ≡ riddles_of hash xs ++ riddles_of hash ys
  riddles_of-append hash [] ys = refl
  riddles_of-append hash (x ∷ xs) ys =
      ap (λ l. new_with_nonce digest hash x ∷ l) (riddles_of-append hash xs ys)

  riddles_of-rands :
      (hash : Hash) (nonces : List Hash) → map (λ r. r.rand) (riddles_of hash nonces) ≡ nonces
  unfolding new_with_nonce
  riddles_of-rands hash [] = refl
  riddles_of-rands hash (nonce ∷ nonces) = ap (λ l. nonce ∷ l) (riddles_of-rands hash nonces)

  -- A node that knows the hash passes the check of a hub on its way.
  honest_passes :
      (hash rand : Hash) (nonces more all : List Hash)
      → all ≡ (nonces ++ rand ∷ []) ++ more
      → validate_riddles
          (new_with_nonce digest hash rand)
          (nonces ++ rand ∷ [])
          (riddles_of hash all)
        ≡ true
  unfolding new_with_nonce
  honest_passes hash rand nonces more all e =
      (validate_riddles_iff (new_with_nonce digest hash rand) nonces (riddles_of hash all)).1 (
        riddles_of hash nonces,
        riddles_of hash more,
        ap (λ l. riddles_of hash l) (e ∙ append_assoc nonces (rand ∷ []) more)
            ∙ riddles_of-append hash nonces (rand ∷ more),
        riddles_of-rands hash nonces,
      )

  abbrev pub Passed : Hash → Resolution → Riddle × List Hash → Type 0
  Passed hash last (riddle, nonces) =
      validate_riddles riddle nonces (riddles_of hash last.validation_nonces) ≡ true

cons_cases :
    {A : Type 0} (list : List A) → 0 < length list → (a : A) × (rest : List A) × (list ≡ a ∷ rest)
cons_cases [] h = absurd (omega (arith, h))
cons_cases (a ∷ rest) h = (a, rest, refl)

snoc_cases :
    {A : Type 0} (list : List A)
    → 0 < length list
    → (above : List A) × (a : A) × (list ≡ above ++ a ∷ [])
snoc_cases [] h = absurd (omega (arith, h))
snoc_cases (a ∷ []) h = ([], a, refl)
snoc_cases (a ∷ b ∷ list) h =
    let (above, last, e) = snoc_cases (b ∷ list) (omega arith) in
    (a ∷ above, last, ap (λ l. a ∷ l) e)

module _ (digest : List ℕ → Hash) (hash : Hash) where
  descend_parts :
      (hubs : ℕ) (nonces : List Hash) (resolution : Resolution)
      → resolution.content_riddles ≡ riddles_of digest hash nonces
      → hubs ≤ length nonces
      → (checks : List (Riddle × List Hash)) × (last : Resolution) × (more : List Hash) × (descend
            hubs resolution
          ≡ some (checks, last))
        × (last.validation_nonces ≡ resolution.validation_nonces ++ more)
        × (left : List Hash) × (last.content_riddles ≡ riddles_of digest hash left)
        × (length left + hubs ≡ length nonces)
        × (last.location_message_riddle ≡ resolution.location_message_riddle)
        × (last.kind ≡ resolution.kind)
        × Every (Passed digest hash last) checks
  unfolding descend new_with_nonce
  descend_parts zero nonces resolution e h = (
    [],
    resolution,
    [],
    refl,
    sym (append-nil resolution.validation_nonces),
    nonces,
    e,
    omega arith,
    refl,
    refl,
    tt,
  )
  descend_parts (suc hubs) nonces resolution e h =
      let (above, rand, snoc) = snoc_cases nonces (omega (arith, h)) in
      let last_riddle = new_with_nonce digest hash rand in
      let taken : resolution.content_riddles ≡ riddles_of digest hash above ++ last_riddle ∷ [] =
        e
        ∙ ap (λ l. riddles_of digest hash l) snoc
        ∙ riddles_of-append digest hash above (rand ∷ []) in
      let below : Resolution = record resolution {
        content_riddles = riddles_of digest hash above;
        validation_nonces = resolution.validation_nonces ++ rand ∷ [];
      } in
      let size = ap (λ l. length l) snoc ∙ length-append above (rand ∷ []) in
      let (checks, last, more, run, nonces_of, left, riddles, count, location, kind, passed) =
        descend_parts hubs above below refl (omega (arith, h, size)) in
      (
        (last_riddle, below.validation_nonces) ∷ checks,
        last,
        rand ∷ more,
        rw (taken, pop_last-snoc (riddles_of digest hash above) last_riddle)
            (ap
              (λ o. o >>= (λ (checks, last).
                some ((last_riddle, below.validation_nonces) ∷ checks, last)))
              run),
        nonces_of ∙ append_assoc resolution.validation_nonces (rand ∷ []) more,
        left,
        riddles,
        omega (arith, count, size),
        location,
        kind,
        (
          honest_passes digest hash rand resolution.validation_nonces more last.validation_nonces
              nonces_of,
          passed,
        ),
      )

  -- A resolution whose riddles are all made from one hash, and that has more of them than there are
  -- hubs in a chain, comes to the node at the chain's end with a first riddle that is made from the hash.
  -- The riddles that a node with the hash returns pass the check of every hub on the way back.
  pub descend-Passed :
      (hubs : ℕ) (nonces : List Hash) (resolution : Resolution)
      → resolution.content_riddles ≡ riddles_of digest hash nonces
      → hubs < length nonces
      → (checks : List (Riddle × List Hash)) × (last : Resolution) × (nonce : Hash) × (rest : List
          Riddle)
        × (descend hubs resolution ≡ some (checks, last))
        × (last.content_riddles ≡ new_with_nonce digest hash nonce ∷ rest)
        × (last.location_message_riddle ≡ resolution.location_message_riddle)
        × (last.kind ≡ resolution.kind)
        × Every (Passed digest hash last) checks
  descend-Passed hubs nonces resolution e h =
      let (checks, last, more, run, nonces_of, left, riddles, count, location, kind, passed) =
        descend_parts hubs nonces resolution e (omega (arith, h)) in
      let (nonce, others, cut) = cons_cases left (omega (arith, count, h)) in
      (
        checks,
        last,
        nonce,
        riddles_of digest hash others,
        run,
        riddles ∙ ap (λ l. riddles_of digest hash l) cut,
        location,
        kind,
        passed,
      )

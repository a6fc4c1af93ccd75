-- ===== src/Lookup/Found.antt =====
-- Which entry of a table is found.
use samizdat.Prelude.{
  ℕ, ◌≡◌, refl, ◌∙◌, ap, ◌↔◌, ◌⊎◌, inl, inr, true, false, Bool-cases, List, [], ◌∷◌, ◌++◌, Option,
  some, length, eq_of_some,
}
use samizdat.Hash.{Hash, hash_eq_iff, rehash}
use samizdat.Riddle.{Riddle, resolves, new_with_nonce}
use samizdat.Riddle.Solving.{resolves-new_with_nonce}
use samizdat.Patricia.Proof.Binding.{Collision}
use samizdat.Objects.Reading.{find}
use samizdat.Lookup.{is_match, find_value}

module _ (digest : List ℕ → Hash) (hash_of : List ℕ → Option Hash) (riddle : Riddle) where
  abbrev pub NoneMatches : List (List ℕ × List ℕ) → Type 0
  NoneMatches [] = Unit
  NoneMatches ((key, value) ∷ entries) =
      (is_match digest riddle (hash_of key) ≡ false) × NoneMatches entries

  -- An entry with this value whose key resolves the riddle, and none before it does.
  abbrev pub FirstMatch : List ℕ → List (List ℕ × List ℕ) → Type 0
  FirstMatch value entries =
      (before : List (List ℕ × List ℕ)) × (key : List ℕ) × (after : List (List ℕ × List ℕ))
      × (entries ≡ before ++ (key, value) ∷ after)
      × (is_match digest riddle (hash_of key) ≡ true)
      × NoneMatches before

  find_value-FirstMatch :
      (value : List ℕ) (entries : List (List ℕ × List ℕ))
      → find_value digest hash_of riddle entries ≡ some value
      → FirstMatch value entries
  unfolding find_value
  find_value-FirstMatch value [] h = absurd (cc h)
  find_value-FirstMatch value ((key, other) ∷ entries) h =
      elim (Bool-cases (is_match digest riddle (hash_of key))) [
        | inl e ↦ (
          [],
          key,
          entries,
          ap (λ v. (key, v) ∷ entries) (eq_of_some other value (rw e at h)),
          e,
          tt,
        )
        | inr e ↦
            let (before, k, after, same, matches, fresh) =
              find_value-FirstMatch value entries (rw e at h) in
            ((key, other) ∷ before, k, after, ap (λ l. (key, other) ∷ l) same, matches, (e, fresh))
      ]

  FirstMatch-find_value :
      (value : List ℕ) (before : List (List ℕ × List ℕ)) (key : List ℕ)
      (after : List (List ℕ × List ℕ))
      → is_match digest riddle (hash_of key) ≡ true
      → NoneMatches before
      → find_value digest hash_of riddle (before ++ (key, value) ∷ after) ≡ some value
  unfolding find_value
  FirstMatch-find_value value [] key after h fresh = rw h refl
  FirstMatch-find_value value ((k, v) ∷ before) key after h fresh =
      rw fresh.0 (FirstMatch-find_value value before key after h fresh.1)

  -- A lookup by a riddle finds a value if and only if that is the value of the first entry whose key
  -- resolves the riddle; entries whose keys cannot be read are passed over.
  pub find_value_iff :
      (value : List ℕ) (entries : List (List ℕ × List ℕ))
      → (find_value digest hash_of riddle entries ≡ some value) ↔ FirstMatch value entries
  find_value_iff value entries = (
    find_value-FirstMatch value entries,
    λ (before, key, after, same, matches, fresh).
        ap (λ l. find_value digest hash_of riddle l) same
        ∙ FirstMatch-find_value value before key after matches fresh,
  )

module _ (digest : List ℕ → Hash) (digest_sized : (x : List ℕ) → length (digest x) ≡ 28) where
  -- Among the objects of a node, the one that a riddle was made from is found by it, or else two texts
  -- with one digest are known.
  pub find-known :
      (hash nonce : Hash) (before after : List Hash)
      → (find digest (new_with_nonce digest hash nonce) (before ++ hash ∷ after) ≡ some hash)
        ⊎ Collision digest
  unfolding find resolves new_with_nonce
  find-known hash nonce [] after = inl (rw ((hash_eq_iff (rehash digest hash nonce) _).1 refl) refl)
  find-known hash nonce (key ∷ before) after =
      elim (Bool-cases (resolves digest (new_with_nonce digest hash nonce) key)) [
        | inl h ↦ elim (resolves-new_with_nonce digest digest_sized hash nonce key h) [
          | inl same ↦ inl (rw h (ap (λ k. some k) same))
          | inr c ↦ inr c
        ]
        | inr h ↦ elim (find-known hash nonce before after) [ inl e ↦ inl (rw h e) | inr c ↦ inr c ]
      ]

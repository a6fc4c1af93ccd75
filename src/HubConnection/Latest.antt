-- ===== src/HubConnection/Latest.antt =====
-- What is picked from the editions and identities that a hub returns.
use samizdat.Prelude.{
  ℕ, ◌≤◌, ◌≡◌, refl, sym, ◌∙◌, arith, inl, inr, ◌&&◌, Bool, true, Bool-cases, ltb, List, [], ◌∷◌,
  Option, none, some, eq_of_some, >>=-eq-some, if◌then◌else◌, ◌>>=◌,
}
use samizdat.Codec.{Codec}
use samizdat.Hash.{Hash, hash_eq}
use samizdat.Cipher.{Aead}
use samizdat.Bookmark.{Bincode}
use samizdat.Series.{Signatures, SeriesCodecs, Edition, SeriesRef, edition_is_valid}
use samizdat.Identity.{Identity, IdentityRef, identity_is_valid}
use samizdat.Rpc.{EditionResponse, IdentityResponse}
use samizdat.HubConnection.{
  better_of, edition_time, decrypt_edition, consider_edition, pick_edition, get_edition,
  decrypt_identity, consider_identity, pick_identity, get_identity_at, identity_work,
}

-- The best of the acceptable values: `none` if there are none.
abbrev pub Bounded : {A : Type 0} → (A → ℕ) → Option A → A → Type 0
Bounded rank none a = ⊥
Bounded rank (some best) a = rank a ≤ rank best

module _ {A : Type 0} (rank : A → ℕ) (accept : A → Bool) where
  abbrev pub Sound : Option A → Type 0
  Sound none = Unit
  Sound (some best) = accept best ≡ true

  -- A step keeps what is acceptable and better.
  abbrev pub step : Option A → A → Option A
  step best a = if accept a then better_of rank best a else best

  step-Sound : (best : Option A) (a : A) → Sound best → Sound (step best a)
  step-Sound none a h = elim (Bool-cases (accept a)) [ inl e ↦ rw e e | inr e ↦ rw e tt ]
  step-Sound (some best) a h = elim (Bool-cases (accept a)) [
    | inl e ↦ elim (Bool-cases (ltb (rank best) (rank a))) [
      | inl l ↦ rw e (rw l e)
      | inr l ↦ rw e (rw l h)
    ]
    | inr e ↦ rw e h
  ]

  step-Bounded :
      (best : Option A) (a other : A) → Bounded rank best other → Bounded rank (step best a) other
  step-Bounded none a other h = absurd h
  step-Bounded (some best) a other h = elim (Bool-cases (accept a)) [
    | inl e ↦ elim (Bool-cases (ltb (rank best) (rank a))) [
      | inl l ↦ rw e (rw l (ground arith))
      | inr l ↦ rw e (rw l h)
    ]
    | inr e ↦ rw e h
  ]

  step_new : (best : Option A) (a : A) → accept a ≡ true → Bounded rank (step best a) a
  step_new none a h = rw h (omega arith)
  step_new (some best) a h = elim (Bool-cases (ltb (rank best) (rank a))) [
    | inl l ↦ rw h (rw l (omega arith))
    | inr l ↦ rw h (rw l (ground arith))
  ]

  module _ {C : Type 0} (decode : C → Option A) where
    unfoldable pick : Option A → List C → Option (Option A)
    pick best [] = some best
    pick best (c ∷ cs) = do a ← decode c; pick (step best a) cs

    -- Every candidate is read, and the result is at least as good as each acceptable one.
    abbrev pub Covers : Option A → List C → Type 0
    Covers result [] = Unit
    Covers result (c ∷ cs) =
        ((a : A) × (decode c ≡ some a) × (accept a ≡ true → Bounded rank result a))
        × Covers result cs

    pick_best :
        (best result : Option A) (cs : List C)
        → pick best cs ≡ some result
        → (Sound best → Sound result)
          × ((a : A) → Bounded rank best a → Bounded rank result a)
          × Covers result cs
    unfolding pick
    pick_best best result [] h =
        let same = eq_of_some best result h in (λ s. rw (sym same) s, (λ a b. rw (sym same) b), tt)
    pick_best best result (c ∷ cs) h =
        let (a, read, rest) = >>=-eq-some (decode c) _ h in
        let (sound, bounded, covers) = pick_best (step best a) result cs rest in
        (
          λ s. sound (step-Sound best a s),
          λ b le. bounded b (step-Bounded best a b le),
          ((a, read, λ ok. bounded a (step_new best a ok)), covers),
        )

>>=-cong :
    {A U : Type 0} (m : Option A) (f g : A → Option U)
    → ((a : A) → f a ≡ g a)
    → (m >>= f) ≡ (m >>= g)
>>=-cong none f g h = refl
>>=-cong (some a) f g h = h a

module _ (digest : List ℕ → Hash) (aead : Aead) (s : Signatures) (codecs : SeriesCodecs)
    (series : SeriesRef) where
  pick_edition-pick :
      (best : Option Edition) (candidates : List EditionResponse)
      → pick_edition digest aead s codecs series best candidates
        ≡ pick
            (edition_time digest aead s codecs)
            (edition_is_valid s codecs)
            (decrypt_edition digest aead s codecs series)
            best
            candidates
  unfolding pick_edition pick
  pick_edition-pick best [] = refl
  pick_edition-pick best (candidate ∷ candidates) =
      >>=-cong (decrypt_edition digest aead s codecs series candidate) _ _
        (λ e. pick_edition-pick (consider_edition digest aead s codecs best e) candidates)

  -- If a hub's responses to a request for an edition give a result, then each of them can be decrypted
  -- with the series' key, the result, if there is one, is an edition with a valid signature, and no
  -- response with a valid signature is later. Whose key an edition is signed with is not looked at.
  pub get_edition-latest :
      (responses : List EditionResponse) (result : Option Edition)
      → get_edition digest aead s codecs series (some responses) ≡ some result
      → Sound (edition_time digest aead s codecs) (edition_is_valid s codecs) result
        × Covers
            (edition_time digest aead s codecs)
            (edition_is_valid s codecs)
            (decrypt_edition digest aead s codecs series)
            result
            responses
  get_edition-latest responses result h =
      let (sound, bounded, covers) =
        pick_best (edition_time digest aead s codecs) (edition_is_valid s codecs)
          (decrypt_edition digest aead s codecs series) none result responses
          (sym (pick_edition-pick none responses) ∙ h) in
      (sound tt, covers)

module _ (digest : List ℕ → Hash) (aead : Aead) (codec : Codec Identity) (bincode : Bincode)
    (work : Hash → ℕ) (minimum_work_done : ℕ) (identity : IdentityRef) where
  -- The test of `get_identity`.
  abbrev pub is_for : Identity → Bool
  is_for candidate =
      identity_is_valid digest codec bincode work minimum_work_done candidate
      && hash_eq candidate.identity.handle identity.handle

  pick_identity-pick :
      (best : Option Identity) (candidates : List IdentityResponse)
      → pick_identity digest aead codec bincode work minimum_work_done identity best candidates
        ≡ pick
            (identity_work digest aead codec bincode work minimum_work_done)
            is_for
            (decrypt_identity digest aead codec bincode work minimum_work_done identity)
            best
            candidates
  unfolding pick_identity pick
  pick_identity-pick best [] = refl
  pick_identity-pick best (candidate ∷ candidates) =
      >>=-cong
        (decrypt_identity digest aead codec bincode work minimum_work_done identity candidate) _ _
        (λ i.
          pick_identity-pick
            (consider_identity digest aead codec bincode work minimum_work_done identity best i)
            candidates)

  -- If a hub's responses to a request for an identity give a result, then each of them can be decrypted
  -- with the handle's hash, the result, if there is one, is a valid identity with the handle that was
  -- asked for, and no valid response for that handle has more work.
  pub get_identity_at-best :
      (responses : List IdentityResponse) (result : Option Identity)
      → get_identity_at digest aead codec bincode work minimum_work_done identity (some responses)
        ≡ some result
      → Sound (identity_work digest aead codec bincode work minimum_work_done) is_for result
        × Covers
            (identity_work digest aead codec bincode work minimum_work_done)
            is_for
            (decrypt_identity digest aead codec bincode work minimum_work_done identity)
            result
            responses
  get_identity_at-best responses result h =
      let (sound, bounded, covers) =
        pick_best (identity_work digest aead codec bincode work minimum_work_done) is_for
          (decrypt_identity digest aead codec bincode work minimum_work_done identity) none result
          responses (sym (pick_identity-pick none responses) ∙ h) in
      (sound tt, covers)

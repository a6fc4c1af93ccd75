-- ===== src/Series/Editions.antt =====
-- Which editions a series takes, and which one is its latest.
use samizdat.Prelude.{
  ℕ, ◌+◌, ◌≤◌, ltb, ◌≡◌, refl, true, List, [], ◌∷◌, some, arith, >>=-eq-some, eq_of_some,
  Bool-cases, inl, inr,
}
use samizdat.Hash.{Hash}
use samizdat.Codec.{ReadsBack}
use samizdat.Database.{Db}
use samizdat.Objects.Reading.Contents.{hash_eq_refl}
use samizdat.Series.{
  Keypair, Signatures, Edition, SeriesRef, SeriesCodecs, insert_edition, sort_editions,
  read_editions, get_editions, refresh, is_fresh,
}

-- What a key pair signs is verified with its public key.
pub record SignsFor (s : Signatures) (keypair : Keypair) : Type 0 where
  pub verifies :
      (bytes : List ℕ) → s.verify_bytes keypair.public bytes (s.sign_bytes keypair bytes) ≡ true

-- No edition of a list is later than a time.
abbrev pub AllUpTo : ℕ → List Edition → Type 0
AllUpTo time [] = Unit
AllUpTo time (e ∷ es) = (e.signed.content.timestamp ≤ time) × AllUpTo time es

abbrev Descending : List Edition → Type 0
Descending [] = Unit
Descending (e ∷ es) = AllUpTo e.signed.content.timestamp es × Descending es

same-Descending : (es fs : List Edition) → es ≡ fs → Descending es → Descending fs
same-Descending es fs same all = rw (← same) all

later-AllUpTo : (a b : ℕ) (es : List Edition) → a ≤ b → AllUpTo a es → AllUpTo b es
later-AllUpTo a b [] le all = tt
later-AllUpTo a b (e ∷ es) le (first, rest) =
    (omega (arith, le, first), later-AllUpTo a b es le rest)

insert_edition-AllUpTo :
    (time : ℕ) (e : Edition) (es : List Edition)
    → e.signed.content.timestamp ≤ time
    → AllUpTo time es
    → AllUpTo time (insert_edition e es)
unfolding insert_edition
insert_edition-AllUpTo time e [] le all = (le, tt)
insert_edition-AllUpTo time e (f ∷ es) le (first, rest) =
    elim (Bool-cases (ltb e.signed.content.timestamp f.signed.content.timestamp)) [
      | inl less ↦ rw less (first, insert_edition-AllUpTo time e es le rest)
      | inr more ↦ rw more (le, (first, rest))
    ]

insert_edition-Descending :
    (e : Edition) (es : List Edition) → Descending es → Descending (insert_edition e es)
unfolding insert_edition
insert_edition-Descending e [] all = (tt, tt)
insert_edition-Descending e (f ∷ es) (first, rest) =
    elim (Bool-cases (ltb e.signed.content.timestamp f.signed.content.timestamp)) [
      | inl less ↦
          let le : e.signed.content.timestamp ≤ f.signed.content.timestamp = ground (arith, less) in
          rw less (
            insert_edition-AllUpTo f.signed.content.timestamp e es le first,
            insert_edition-Descending e es rest,
          )
      | inr more ↦
          let le : f.signed.content.timestamp ≤ e.signed.content.timestamp = ground (arith, more) in
          rw more (
            (le, later-AllUpTo f.signed.content.timestamp e.signed.content.timestamp es le first),
            (first, rest),
          )
    ]

sort_editions-Descending : (es : List Edition) → Descending (sort_editions es)
sort_editions-Descending [] = tt
sort_editions-Descending (e ∷ es) =
    insert_edition-Descending e (sort_editions es) (sort_editions-Descending es)

module _ (s : Signatures) (codecs : SeriesCodecs) where
  -- The public key verifies the signature of an edition's content.
  abbrev Verified : List ℕ → Edition → Type 0
  Verified key e =
      s.verify_bytes key (codecs.contents.serialize e.signed.content) e.signed.signature ≡ true

  -- A series that was refreshed at a time is fresh exactly as long as the lifetime of its latest edition
  -- has not passed since, the latest being an edition that no other one is later than.
  pub is_fresh-refresh :
      (db : Db) (r : SeriesRef) (refreshed now : ℕ) (values : List (List ℕ)) (latest : Edition)
      (older : List Edition)
      → ReadsBack codecs.times
      → get_editions s codecs values ≡ some (latest ∷ older)
      → (is_fresh s codecs (refresh s codecs db r refreshed) r now values
          ≡ some (ltb now (refreshed + latest.signed.content.ttl)))
        × AllUpTo latest.signed.content.timestamp older
  unfolding is_fresh get_editions
  is_fresh-refresh db r refreshed now values latest older back h =
      let (es, read, sorted) = >>=-eq-some (read_editions s codecs values) _ h in
      let descending : Descending (latest ∷ older) =
        same-Descending (sort_editions es) (latest ∷ older) (eq_of_some _ _ sorted)
          (sort_editions-Descending es) in
      (rw h (rw (hash_eq_refl r.public_key) (rw (back.round_trip refreshed) refl)), descending.0)

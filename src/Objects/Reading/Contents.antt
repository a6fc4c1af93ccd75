-- ===== src/Objects/Reading/Contents.antt =====
-- The chunks that were put into the tables are read back.
use samizdat.Prelude.{
  ℕ, ◌+◌, ◌≡◌, refl, ap, sym, ◌∙◌, true, List, [], ◌∷◌, ◌++◌, some, arith, map, length,
  length-append, append_assoc, append-nil, Bool-cases, inl, inr, ◌⊎◌, >>=-eq-some, eq_of_some,
}
use samizdat.Hash.{Hash, hash_eq, hash_eq_iff}
use samizdat.Patricia.Proof.Binding.{Collision}
use samizdat.Database.{Db}
use samizdat.Objects.Header.Escaping.{oks, oks-append}
use samizdat.Objects.Building.{ObjectCodecs, Progress, put_chunk, add_chunk}
use samizdat.Objects.Building.Cuts.{concat, add_chunks}
use samizdat.Objects.Reading.{get_chunk, stream, collect, collect_chunks}

pub hash_eq_refl : (k : Hash) → hash_eq k k ≡ true
hash_eq_refl k = (hash_eq_iff k k).1 refl

pub stream-collect_chunks :
    (db : Db) (keys : List Hash) (cs : List (List ℕ))
    → collect_chunks db keys ≡ some cs
    → stream db keys ≡ oks (concat cs)
unfolding stream collect_chunks
stream-collect_chunks db [] cs h = rw (← eq_of_some [] cs h) refl
stream-collect_chunks db (key ∷ keys) cs h =
    let (c, got, h2) = >>=-eq-some (get_chunk db key) _ h in
    let (others, more, e) = >>=-eq-some (collect_chunks db keys) _ h2 in
    rw got (
      ap (λ l. oks c ++ l) (stream-collect_chunks db keys others more)
      ∙ sym (oks-append c (concat others))
      ∙ ap (λ l. oks (concat l)) (eq_of_some _ _ e))

pub collect-oks : (xs : List ℕ) → collect (oks xs) ≡ some xs
unfolding collect
collect-oks [] = refl
collect-oks (x ∷ xs) = rw (collect-oks xs) refl

module _ (digest : List ℕ → Hash) (codecs : ObjectCodecs) where
  pub hashes-add_chunks :
      (p : Progress) (cs : List (List ℕ))
      → (add_chunks digest codecs p cs).hashes ≡ p.hashes ++ map digest cs
  hashes-add_chunks p [] = sym (append-nil p.hashes)
  hashes-add_chunks p (c ∷ cs) =
      hashes-add_chunks (add_chunk digest codecs p c (length c) p.maybe_header) cs
      ∙ append_assoc p.hashes (digest c ∷ []) (map digest cs)

  pub size-add_chunks :
      (p : Progress) (cs : List (List ℕ))
      → (add_chunks digest codecs p cs).content_size ≡ p.content_size + length (concat cs)
  size-add_chunks p [] = omega arith
  size-add_chunks p (c ∷ cs) = omega (
    arith,
    size-add_chunks (add_chunk digest codecs p c (length c) p.maybe_header) cs,
    length-append c (concat cs),
  )

  pub header-add_chunks :
      (p : Progress) (cs : List (List ℕ))
      → (add_chunks digest codecs p cs).maybe_header ≡ p.maybe_header
  header-add_chunks p [] = refl
  header-add_chunks p (c ∷ cs) =
      header-add_chunks (add_chunk digest codecs p c (length c) p.maybe_header) cs

  collide : (a b : List ℕ) → hash_eq (digest a) (digest b) ≡ true → (a ≡ b) ⊎ Collision digest
  collide a b same = elim (Bool-cases (hash_eq a b)) [
    | inl e ↦ inl ((hash_eq_iff a b).0 e)
    | inr e ↦ inr (record {
      first = a;
      second = b;
      different = λ eq. cc (e, (hash_eq_iff a b).1 eq);
      same = (hash_eq_iff (digest a) (digest b)).0 same;
    })
  ]

  put_chunk_keeps :
      (db : Db) (c other : List ℕ)
      → get_chunk db (digest c) ≡ some c
      → (get_chunk (put_chunk digest codecs db other) (digest c) ≡ some c) ⊎ Collision digest
  put_chunk_keeps db c other h = elim (Bool-cases (hash_eq (digest c) (digest other))) [
    | inl same ↦ elim (collide c other same) [
      | inl e ↦ inl (rw same (ap some (sym e)))
      | inr collision ↦ inr collision
    ]
    | inr differ ↦ inl (rw differ h)
  ]

  add_chunks_keep :
      (p : Progress) (cs : List (List ℕ)) (c : List ℕ)
      → get_chunk p.db (digest c) ≡ some c
      → (get_chunk (add_chunks digest codecs p cs).db (digest c) ≡ some c) ⊎ Collision digest
  add_chunks_keep p [] c h = inl h
  add_chunks_keep p (other ∷ cs) c h = elim (put_chunk_keeps p.db c other h) [
    | inl kept ↦
        add_chunks_keep (add_chunk digest codecs p other (length other) p.maybe_header) cs c kept
    | inr collision ↦ inr collision
  ]

  -- The chunks are found again, all of them.
  pub collect_chunks-add_chunks :
      (p : Progress) (cs : List (List ℕ))
      → (collect_chunks (add_chunks digest codecs p cs).db (map digest cs) ≡ some cs)
        ⊎ Collision digest
  unfolding collect_chunks
  collect_chunks-add_chunks p [] = inl refl
  collect_chunks-add_chunks p (c ∷ cs) =
      let after = add_chunk digest codecs p c (length c) p.maybe_header in
      let new : get_chunk after.db (digest c) ≡ some c = rw (hash_eq_refl (digest c)) refl in
      elim (add_chunks_keep after cs c new) [
        | inl kept ↦ elim (collect_chunks-add_chunks after cs) [
          | inl others ↦ inl (rw kept (rw others refl))
          | inr collision ↦ inr collision
        ]
        | inr collision ↦ inr collision
      ]

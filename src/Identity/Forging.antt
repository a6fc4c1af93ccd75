-- ===== src/Identity/Forging.antt =====
-- What an identity that was created has.
use samizdat.Prelude.{
  ℕ, ◌≤◌, ◌≡◌, refl, sym, ◌∙◌, ap, arith, inl, inr, true, Bool-cases, ltb, List, [], ◌∷◌, ◌++◌,
  Option, none, some, eq_of_some, ◌>>=◌,
}
use samizdat.Codec.{Codec, ReadsBack}
use samizdat.Hash.{Hash, hash_eq_iff}
use samizdat.Text.{Str}
use samizdat.Bookmark.{Bincode}
use samizdat.Database.{Db, write_batch, identities}
use samizdat.Series.{SeriesRef}
use samizdat.Identity.{
  IdentityRef, from_str, is_bad_handle, ProofOfWork, Identity, identity_hash, get_identity,
  insert_identity, information_of, work_done, is_parsed, identity_is_valid, max_of, forge, Creation,
  created, create_forged, create_at, create_identity,
}
use samizdat.Identity.Search.{search, search_enough, search_ends}

module _ (digest : List ℕ → Hash) (codec : Codec Identity) (bincode : Bincode) (work : Hash → ℕ)
    (minimum_work_done : ℕ) where
  abbrev create :
      Db
      → IdentityRef
      → SeriesRef
      → ℕ
      → Hash
      → List Hash
      → Creation digest codec bincode work minimum_work_done
  create = create_identity digest codec bincode work minimum_work_done

  of_forged :
      (db after : Db) (identity : IdentityRef) (series : SeriesRef) (result : Identity)
      (m : Option ProofOfWork)
      → create_forged digest codec bincode work minimum_work_done db
          (m >>= (λ proof. some (record { identity = identity; series = series; proof = proof })))
        ≡ created after result
      → (proof : ProofOfWork) × (m ≡ some proof)
        × (result ≡ record { identity = identity; series = series; proof = proof })
        × (after ≡ write_batch bincode db (insert_identity digest codec bincode result []))
  of_forged db after identity series result none h = absurd (cc h)
  of_forged db after identity series result (some proof) h =
      let forged : Identity = record { identity = identity; series = series; proof = proof } in
      let (stored, same) = created_parts _ after forged result h in
      (
        proof,
        refl,
        sym same,
        sym stored
            ∙ ap (λ r. write_batch bincode db (insert_identity digest codec bincode r [])) same,
      )
    where
      created_parts :
          (db' after' : Db) (a b : Identity)
          → ◌≡◌ {A = Creation digest codec bincode work minimum_work_done}
              (created db' a)
              (created after' b)
          → (db' ≡ after') × (a ≡ b)
      created_parts db' after' a b e = (cc e, cc e)

  of_create :
      (db after : Db) (identity : IdentityRef) (series : SeriesRef) (work_target : ℕ) (first : Hash)
      (solutions : List Hash) (result : Identity) (stored : Option (List ℕ))
      → create_at digest codec bincode work minimum_work_done db identity series work_target first
          solutions stored
        ≡ created after result
      → create_forged digest codec bincode work minimum_work_done db (
          forge digest codec bincode work minimum_work_done identity series work_target first
            solutions)
        ≡ created after result
  of_create db after identity series work_target first solutions result (some value) h =
      absurd (cc h)
  of_create db after identity series work_target first solutions result none h = h

  create_done :
      (db after : Db) (identity : IdentityRef) (series : SeriesRef) (work_target : ℕ) (first : Hash)
      (solutions : List Hash) (result : Identity)
      → create db identity series work_target first solutions ≡ created after result
      → (proof : ProofOfWork) × (search digest codec bincode work minimum_work_done
            (max_of work_target minimum_work_done)
            (record {
              information = information_of digest codec bincode identity series;
              solution = first;
            })
            solutions
          ≡ some proof)
        × (result ≡ record { identity = identity; series = series; proof = proof })
        × (after ≡ write_batch bincode db (insert_identity digest codec bincode result []))
  unfolding create_identity forge
  create_done db after identity series work_target first solutions result h =
      of_forged db after identity series result
        (search digest codec bincode work minimum_work_done (max_of work_target minimum_work_done)
          (record {
            information = information_of digest codec bincode identity series;
            solution = first;
          })
          solutions)
        (of_create db after identity series work_target first solutions result
          (db identities (identity_hash digest codec bincode identity)) h)

parsed_handle :
    (s : Str) (identity : IdentityRef)
    → from_str s ≡ some identity
    → is_parsed (from_str identity.handle) ≡ true
unfolding from_str
parsed_handle s identity h = elim (Bool-cases (is_bad_handle s)) [
  | inl e ↦ absurd (cc (rw e at h))
  | inr e ↦
      let same = eq_of_some (record { handle = s }) identity (rw e at h) in
      rw (sym same) (rw e refl)
]

get_inserted :
    (digest : List ℕ → Hash) (codec : Codec Identity) (bincode : Bincode) (db : Db)
    (identity : IdentityRef) (series : SeriesRef) (proof : ProofOfWork)
    → ReadsBack codec
    → let i : Identity = record { identity = identity; series = series; proof = proof } in
      get_identity digest codec bincode
        (write_batch bincode db (insert_identity digest codec bincode i []))
        identity
      ≡ some (some i)
unfolding get_identity
get_inserted digest codec bincode db identity series proof back =
    rw ((hash_eq_iff (digest identity.handle) (digest identity.handle)).1 refl)
      (rw (back.round_trip (record { identity = identity; series = series; proof = proof })) refl)

max_of_bounds : (a b : ℕ) → (a ≤ max_of a b) × (b ≤ max_of a b)
max_of_bounds a b = (ground arith, ground arith)

module _ (digest : List ℕ → Hash) (codec : Codec Identity) (bincode : Bincode) (work : Hash → ℕ)
    (minimum_work_done : ℕ) where
  -- An identity that `create` returns, for a handle that was parsed, has at least the work that was
  -- asked for and at least the minimum. It is valid if its work is above the minimum, and not only if
  -- it equals it. It is what the table then has for its handle.
  pub create_identity-IsValid :
      (db after : Db) (s : Str) (identity : IdentityRef) (series : SeriesRef) (work_target : ℕ)
      (first : Hash) (solutions : List Hash) (result : Identity)
      → ReadsBack codec
      → from_str s ≡ some identity
      → create_identity digest codec bincode work minimum_work_done db identity series work_target
          first solutions
        ≡ created after result
      → (work_target ≤ work_done digest codec bincode work minimum_work_done result.proof)
        × (minimum_work_done ≤ work_done digest codec bincode work minimum_work_done result.proof)
        × (identity_is_valid digest codec bincode work minimum_work_done result
            ≡ ltb minimum_work_done
                (work_done digest codec bincode work minimum_work_done result.proof))
        × (get_identity digest codec bincode after identity ≡ some (some result))
  unfolding identity_is_valid get_identity
  create_identity-IsValid db after s identity series work_target first solutions result back parsed
        h =
      let (proof, run, same, stored) =
        create_done digest codec bincode work minimum_work_done db after identity series work_target
          first solutions result h in
      let (enough, about) =
        search_enough digest codec bincode work minimum_work_done _ _ solutions proof run in
      let bounds = max_of_bounds work_target minimum_work_done in
      rw same (
        omega (arith, enough, bounds.0),
        omega (arith, enough, bounds.1),
        rw
            (
              (hash_eq_iff proof.information
                    (information_of digest codec bincode identity series)).1
                  about,
              parsed_handle s identity parsed,
            )
            refl,
        ap (λ d. get_identity digest codec bincode d identity)
              (stored
                ∙ ap (λ r. write_batch bincode db (insert_identity digest codec bincode r [])) same)
            ∙ get_inserted digest codec bincode db identity series proof back,
      )

  -- If the handle is not taken, then `create` comes to its end as soon as a solution is drawn that has
  -- the work that is asked for and the minimum.
  pub create_identity-ends :
      (db : Db) (identity : IdentityRef) (series : SeriesRef) (work_target : ℕ) (first : Hash)
      (before : List Hash) (solution : Hash) (later : List Hash)
      → db identities (digest identity.handle) ≡ none
      → let proof : ProofOfWork = record {
        information = information_of digest codec bincode identity series;
        solution = solution;
      } in
        max_of work_target minimum_work_done
          ≤ work_done digest codec bincode work minimum_work_done proof
        → (after : Db) × (result : Identity) × (create_identity digest codec bincode work
              minimum_work_done db identity series work_target first
              (before ++ solution ∷ later)
            ≡ created after result)
  unfolding create_identity forge
  create_identity-ends db identity series work_target first before solution later fresh h =
      let (proof, run) =
        search_ends digest codec bincode work minimum_work_done
          (max_of work_target minimum_work_done)
          (record {
            information = information_of digest codec bincode identity series;
            solution = first;
          })
          before solution later h in
      let forged : Identity = record { identity = identity; series = series; proof = proof } in
      (
        write_batch bincode db (insert_identity digest codec bincode forged []),
        forged,
        rw fresh (rw run refl),
      )

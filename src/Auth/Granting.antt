-- ===== src/Auth/Granting.antt =====
-- What an entity is granted after `patch_auth` and `delete_auth`.
use samizdat.Prelude.{
  ℕ, ◌<◌, ◌≤◌, ◌≡◌, ◌≢◌, refl, ap, sym, ◌∙◌, Bool, true, false, ◌||◌, List, [], ◌∷◌, ◌++◌, Option,
  none, some, arith, leb, leb→le, ◌==◌, ==_iff, Bool-cases, inl, inr,
}
use samizdat.Hash.{hash_eq, hash_eq_iff}
use samizdat.Text.{Str}
use samizdat.Store.{Table, put}
use samizdat.Access.{AccessRight, rank, right_eq, Entity, from_path}
use samizdat.Auth.{
  contains, insert_right, sort_rights, dedup, RightsCodec, Answer, ok, failed, grant,
  granted_rights, patch_auth, delete_auth,
}

-- Each right at most as large as the next.
abbrev Ordered : List AccessRight → Type 0
Ordered [] = Unit
Ordered (x ∷ []) = Unit
Ordered (x ∷ y ∷ xs) = (rank x ≤ rank y) × Ordered (y ∷ xs)

-- Each right smaller than the next, so that none stands twice.
abbrev pub Ascending : List AccessRight → Type 0
Ascending [] = Unit
Ascending (x ∷ []) = Unit
Ascending (x ∷ y ∷ xs) = (rank x < rank y) × Ascending (y ∷ xs)

insert_right-Ordered :
    (right : AccessRight) (xs : List AccessRight) → Ordered xs → Ordered (insert_right right xs)
insert_right-Ordered right [] h = tt
insert_right-Ordered right (x ∷ []) h = elim (Bool-cases (leb (rank right) (rank x))) [
  | inl e ↦ rw e (leb→le _ _ e, tt)
  | inr e ↦ rw e (ground arith, tt)
]
insert_right-Ordered right (x ∷ y ∷ xs) h = elim (Bool-cases (leb (rank right) (rank x))) [
  | inl e ↦ rw e (leb→le _ _ e, h)
  | inr e ↦
      let ih = insert_right-Ordered right (y ∷ xs) h.1 in
      elim (Bool-cases (leb (rank right) (rank y))) [
        | inl f ↦ rw e (rw f (ground arith, rw f at ih))
        | inr f ↦ rw e (rw f (h.0, rw f at ih))
      ]
]

sort_rights-Ordered : (xs : List AccessRight) → Ordered (sort_rights xs)
sort_rights-Ordered [] = tt
sort_rights-Ordered (x ∷ xs) = insert_right-Ordered x (sort_rights xs) (sort_rights-Ordered xs)

-- The first right that `dedup` leaves.
dedup-cons :
    (x : AccessRight) (xs : List AccessRight)
    → (y : AccessRight) × (ys : List AccessRight) × (dedup (x ∷ xs) ≡ y ∷ ys) × (rank y ≡ rank x)
dedup-cons x [] = (x, [], refl, refl)
dedup-cons x (y ∷ xs) = elim (Bool-cases (right_eq x y)) [
  | inl e ↦
      let (z, zs, d, r) = dedup-cons y xs in
      (z, zs, rw e d, r ∙ sym ((==_iff (rank x) (rank y)).0 e))
  | inr e ↦ (x, dedup (y ∷ xs), rw e refl, refl)
]

dedup-Ascending : (xs : List AccessRight) → Ordered xs → Ascending (dedup xs)
dedup-Ascending [] h = tt
dedup-Ascending (x ∷ []) h = tt
dedup-Ascending (x ∷ y ∷ xs) h =
    let ih = dedup-Ascending (y ∷ xs) h.1 in
    elim (Bool-cases (right_eq x y)) [
      | inl e ↦ rw e ih
      | inr e ↦
          let (z, zs, d, r) = dedup-cons y xs in
          let below : rank x < rank z = ground (arith, h.0) in rw e (rw d (below, rw d at ih))
    ]

or_assoc : (a b c : Bool) → (a || (b || c)) ≡ ((a || b) || c)
or_assoc true b c = refl
or_assoc false b c = refl

or_swap : (a b c : Bool) → (a || (b || c)) ≡ (b || (a || c))
or_swap true true c = refl
or_swap true false c = refl
or_swap false b c = refl

or_same : (a b : Bool) → (a || (a || b)) ≡ (a || b)
or_same true b = refl
or_same false b = refl

contains-append :
    (xs ys : List AccessRight) (right : AccessRight)
    → contains (xs ++ ys) right ≡ (contains xs right || contains ys right)
contains-append [] ys right = refl
contains-append (x ∷ xs) ys right =
    ap (λ b. right_eq x right || b) (contains-append xs ys right)
    ∙ or_assoc (right_eq x right) (contains xs right) (contains ys right)

contains-insert_right :
    (x : AccessRight) (xs : List AccessRight) (right : AccessRight)
    → contains (insert_right x xs) right ≡ (right_eq x right || contains xs right)
contains-insert_right x [] right = refl
contains-insert_right x (y ∷ xs) right = elim (Bool-cases (leb (rank x) (rank y))) [
  | inl e ↦ rw e refl
  | inr e ↦ rw e (
      ap (λ b. right_eq y right || b) (contains-insert_right x xs right)
      ∙ or_swap (right_eq y right) (right_eq x right) (contains xs right))
]

contains-sort_rights :
    (xs : List AccessRight) (right : AccessRight)
    → contains (sort_rights xs) right ≡ contains xs right
contains-sort_rights [] right = refl
contains-sort_rights (x ∷ xs) right =
    contains-insert_right x (sort_rights xs) right
    ∙ ap (λ b. right_eq x right || b) (contains-sort_rights xs right)

contains-dedup :
    (xs : List AccessRight) (right : AccessRight) → contains (dedup xs) right ≡ contains xs right
contains-dedup [] right = refl
contains-dedup (x ∷ []) right = refl
contains-dedup (x ∷ y ∷ xs) right =
    let ih = contains-dedup (y ∷ xs) right in
    elim (Bool-cases (right_eq x y)) [
      | inl e ↦
          let same : rank x ≡ rank y = (==_iff (rank x) (rank y)).0 e in
          rw e (
            ih
            ∙ sym (or_same (right_eq y right) (contains xs right))
            ∙ ap (λ n. (n == rank right) || (right_eq y right || contains xs right)) (sym same))
      | inr e ↦ rw e (ap (λ b. right_eq x right || b) ih)
    ]

-- What is written is read back, and two entities have two keys.
pub record IsLawful (codec : RightsCodec) : Type 0 where
  pub round_trip :
      (rights : List AccessRight) → codec.decode_rights (codec.encode_rights rights) ≡ some rights
  pub apart : (a b : Entity) → codec.encode_entity a ≡ codec.encode_entity b → a ≡ b

-- What is granted in a table: the rights, none twice, that were granted in another one or are new.
pub record IsGranted (codec : RightsCodec) (rights : Table) (entity : Entity)
    (current more : List AccessRight) : Type 0 where
  pub granted : List AccessRight
  pub reads : granted_rights codec rights entity ≡ ok granted
  pub ascending : Ascending granted
  pub members :
      (right : AccessRight)
      → contains granted right ≡ (contains current right || contains more right)

module _ (codec : RightsCodec) (lawful : IsLawful codec) where
  -- If an entity's rights can be read, then `patch_auth` for a path that names it succeeds. Afterwards
  -- it is granted, each once, the rights that it had and those of the request, and no others.
  pub patch_auth-IsGranted :
      (rights : Table) (tail : Str) (entity : Entity) (current more : List AccessRight)
      → from_path tail ≡ some entity
      → granted_rights codec rights entity ≡ ok current
      → ((patch_auth codec rights tail more).1 ≡ ok tt)
        × IsGranted codec (patch_auth codec rights tail more).0 entity current more
  unfolding patch_auth
  patch_auth-IsGranted rights tail entity current more names reads =
      let all = current ++ more in
      let key = codec.encode_entity entity in
      rw names (
        rw reads (
          refl,
          record {
            granted = dedup (sort_rights all);
            reads =
                unfold granted_rights in
                rw ((hash_eq_iff key key).1 refl)
                  (rw (lawful.round_trip (dedup (sort_rights all))) refl);
            ascending = dedup-Ascending (sort_rights all) (sort_rights-Ordered all);
            members = λ right.
                contains-dedup (sort_rights all) right
                ∙ contains-sort_rights all right
                ∙ contains-append current more right;
          },
        ))

  put_elsewhere :
      (rights : Table) (a b : Entity) (value : Option (List ℕ))
      → b ≢ a
      → put rights (codec.encode_entity a) value (codec.encode_entity b)
        ≡ rights (codec.encode_entity b)
  put_elsewhere rights a b value ne =
      elim (Bool-cases (hash_eq (codec.encode_entity b) (codec.encode_entity a))) [
        | inl e ↦ absurd (ne (lawful.apart b a ((hash_eq_iff _ _).0 e)))
        | inr e ↦ rw e refl
      ]

  grant_elsewhere :
      (rights : Table) (a b : Entity) (more : List AccessRight) (answer : Answer (List AccessRight))
      → b ≢ a
      → granted_rights codec (grant codec rights a more answer).0 b ≡ granted_rights codec rights b
  unfolding granted_rights
  grant_elsewhere rights a b more (failed why) ne = refl
  grant_elsewhere rights a b more (ok current) ne = rw (put_elsewhere rights a b _ ne) refl

  -- `delete_auth` for a path that names an entity leaves it without rights, and neither it nor
  -- `patch_auth` changes what another entity is granted.
  pub delete_auth-granted_rights :
      (rights : Table) (tail : Str) (entity other : Entity) (more : List AccessRight)
      → from_path tail ≡ some entity
      → other ≢ entity
      → (granted_rights codec (delete_auth codec rights tail).0 entity ≡ ok [])
        × (granted_rights codec (delete_auth codec rights tail).0 other
            ≡ granted_rights codec rights other)
        × (granted_rights codec (patch_auth codec rights tail more).0 other
            ≡ granted_rights codec rights other)
  unfolding delete_auth patch_auth granted_rights
  delete_auth-granted_rights rights tail entity other more names ne =
      let key = codec.encode_entity entity in
      rw names (
        rw ((hash_eq_iff key key).1 refl) refl,
        rw (put_elsewhere rights entity other none ne) refl,
        grant_elsewhere rights entity other more (granted_rights codec rights entity) ne,
      )

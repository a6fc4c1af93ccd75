-- ===== src/Collection/Items/Binding.antt =====
-- What a valid item says about its collection.
use samizdat.Prelude.{
  ℕ, ◌≡◌, ◌⊎◌, refl, ap, sym, ◌∙◌, Bool, true, false, not, List, Option, none, some, ◌>>=◌,
  if◌then◌else◌, Bool-cases, inl, inr, length,
}
use samizdat.Hash.{Hash, IsHash, hash_eq, hash_eq_iff}
use samizdat.Patricia.Proof.{is_in}
use samizdat.Patricia.Proof.Binding.{Collision, AllSized, is_in_binding}
use samizdat.Collection.Items.{CollectionItem, is_valid, object}

-- The value that an item claims and the hashes of its path have 28 bytes, as their type says.
pub record IsSized (item : CollectionItem) : Type 0 where
  pub value : length item.inclusion_proof.claimed_value ≡ 28
  pub path : AllSized item.inclusion_proof.path

module _ (digest : List ℕ → Hash) (digest_sized : (x : List ℕ) → length (digest x) ≡ 28) where
  -- An item that gives an object has an accepted proof for its own name.
  record Accepted (item : CollectionItem) (value : Hash) : Type 0 where
    pub included : is_in digest item.inclusion_proof item.collection ≡ some true
    pub key : digest item.name ≡ item.inclusion_proof.claimed_key
    pub given : item.inclusion_proof.claimed_value ≡ value

  object-Accepted :
      (item : CollectionItem) (value : Hash)
      → object digest item ≡ some (some value)
      → Accepted item value
  unfolding object is_valid
  object-Accepted item value h = included (is_in digest item.inclusion_proof item.collection) refl h
    where
      after : Option Bool → Option (Option Hash)
      after o = do
        valid ← (do
          is_included ← o
          some (
              if not is_included
              then false
              else if not (hash_eq (digest item.name) item.inclusion_proof.claimed_key)
              then false
              else true))
        some (if valid then some item.inclusion_proof.claimed_value else none)

      included :
          (o : Option Bool)
          → is_in digest item.inclusion_proof item.collection ≡ o
          → after o ≡ some (some value)
          → Accepted item value
      included none e k = absurd (cc (k))
      included (some false) e k = absurd (cc (k))
      included (some true) e k =
          elim (Bool-cases (hash_eq (digest item.name) item.inclusion_proof.claimed_key)) [
            | inl same ↦ record {
              included = e;
              key = (hash_eq_iff _ _).0 same;
              given = cc (rw same at k);
            }
            | inr different ↦ absurd (cc (rw different at k))
          ]

  -- Two items of one collection with one name that both give an object give the same one, or else two
  -- texts with one digest are known. All digests have 28 numbers, and those of the digest of the name are
  -- bytes.
  pub object_binding :
      (p q : CollectionItem) (value other : Hash)
      → IsHash (digest p.name)
      → IsSized p
      → IsSized q
      → p.collection ≡ q.collection
      → p.name ≡ q.name
      → object digest p ≡ some (some value)
      → object digest q ≡ some (some other)
      → (value ≡ other) ⊎ Collision digest
  object_binding p q value other named sp sq root name hp hq =
      let a = object-Accepted p value hp in
      let b = object-Accepted q other hq in
      let key : p.inclusion_proof.claimed_key ≡ q.inclusion_proof.claimed_key =
        sym a.key ∙ ap digest name ∙ b.key in
      elim (is_in_binding digest digest_sized p.inclusion_proof q.inclusion_proof q.collection
        (rw a.key at named) key sp.value sq.value sp.path sq.path (rw root at a.included)
        b.included) [
          | inl same ↦ inl (sym a.given ∙ same ∙ b.given)
          | inr collision ↦ inr collision
        ]

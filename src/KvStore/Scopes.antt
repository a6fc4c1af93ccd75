-- ===== src/KvStore/Scopes.antt =====
-- What one entity stores is out of reach of the others.
use samizdat.Prelude.{
  ℕ, ◌≡◌, refl, sym, ◌∙◌, ap, arith, ◌⊎◌, inl, inr, ◌&&◌, ◌||◌, Bool, true, false, Bool-cases, List,
  [], ◌∷◌, Option, none, some, eq_of_some, >>=-eq-some, if◌then◌else◌,
}
use samizdat.Hash.{hash_eq, hash_eq_iff}
use samizdat.Codec.{Codec, ReadsBack}
use samizdat.Text.{Str}
use samizdat.Store.{Table, put}
use samizdat.Access.{Entity}
use samizdat.KvStore.{
  entity_eq, value_key, get_value, add_key, clear_batch, delete_keys, clear_values,
}

abbrev pub has_key : List ℕ → List (List ℕ) → Bool
has_key k [] = false
has_key k (key ∷ keys) = hash_eq k key || has_key k keys

delete_keys_lem :
    (codec : Codec (Entity × Str)) (t : Table) (batch : List (List ℕ)) (k : List ℕ)
    → delete_keys codec t batch k ≡ (if has_key k batch then none else t k)
delete_keys_lem codec t [] k = refl
delete_keys_lem codec t (key ∷ batch) k =
    delete_keys_lem codec (put t key none) batch k ∙ either (hash_eq k key) (has_key k batch)
  where
    either :
        (a b : Bool)
        → (if b then none else (if a then none else t k)) ≡ (if a || b then none else t k)
    either true true = refl
    either true false = refl
    either false true = refl
    either false false = refl

has_key-if :
    (k key : List ℕ) (batch : List (List ℕ)) (b : Bool)
    → has_key k (if b then key ∷ batch else batch)
      ≡ (if b then hash_eq k key || has_key k batch else has_key k batch)
has_key-if k key batch true = refl
has_key-if k key batch false = refl

key_same :
    (h b c r m : Bool)
    → h ≡ true
    → b ≡ c
    → m ≡ (r && c)
    → (if b then h || m else m) ≡ ((h || r) && c)
key_same h true c r m is owns rest = ground arith
key_same h false c r m is owns rest = ground arith

key_differs :
    (h b c r m : Bool) → h ≡ false → m ≡ (r && c) → (if b then h || m else m) ≡ ((h || r) && c)
key_differs h true c r m is rest = ground arith
key_differs h false c r m is rest = ground arith

module _ (codec : Codec (Entity × Str)) (back : ReadsBack codec) where
  clear_batch_lem :
      (entity other : Entity) (tail : Str) (keys batch : List (List ℕ))
      → clear_batch codec entity keys ≡ some batch
      → has_key (value_key codec other tail) batch
        ≡ (has_key (value_key codec other tail) keys && entity_eq entity other)
  unfolding clear_batch
  clear_batch_lem entity other tail [] batch h =
      ap (λ l. has_key (value_key codec other tail) l) (sym (eq_of_some [] batch h))
  clear_batch_lem entity other tail (key ∷ keys) batch h =
      let (owner, read, h2) = >>=-eq-some (codec.deserialize key) _ h in
      let (more, rest, h3) = >>=-eq-some (clear_batch codec entity keys) _ h2 in
      let k = value_key codec other tail in
      let ih = clear_batch_lem entity other tail keys more rest in
      ap (λ l. has_key k l) (sym (eq_of_some (add_key codec entity key owner more) batch h3))
      ∙ has_key-if k key more (entity_eq entity owner.0)
      ∙ elim (Bool-cases (hash_eq k key)) [
        | inl same ↦
            let owner_is : owner ≡ (other, tail) =
              eq_of_some owner (other, tail)
                (sym read
                  ∙ ap codec.deserialize (sym ((hash_eq_iff k key).0 same))
                  ∙ back.round_trip (other, tail)) in
            key_same (hash_eq k key) _ (entity_eq entity other) (has_key k keys) (has_key k more)
              same (ap (λ o. entity_eq entity o.0) owner_is) ih
        | inr differ ↦
            key_differs (hash_eq k key) _ (entity_eq entity other) (has_key k keys) (has_key k more)
              differ ih
      ]

  -- If keys that are written can be read again and the loop of `clear` reads all that it is given, among
  -- them the key asked for if that has a value, then afterwards the cleared entity has no value there, and
  -- every other entity has the value it had.
  pub get_value-clear_values :
      (t after : Table) (entity other : Entity) (tail : Str) (keys : List (List ℕ))
      → ((t (value_key codec other tail) ≡ none)
          ⊎ (has_key (value_key codec other tail) keys ≡ true))
      → clear_values codec t entity keys ≡ some after
      → get_value codec after other tail
        ≡ (if entity_eq entity other then none else get_value codec t other tail)
  unfolding clear_values get_value
  get_value-clear_values t after entity other tail keys listed h =
      let (batch, run, made) = >>=-eq-some (clear_batch codec entity keys) _ h in
      let k = value_key codec other tail in
      ap (λ u. u k) (sym (eq_of_some (delete_keys codec t batch) after made))
      ∙ delete_keys_lem codec t batch k
      ∙ ap (λ b. if b then none else t k) (clear_batch_lem entity other tail keys batch run)
      ∙ cleared (has_key k keys) (entity_eq entity other) (t k) listed
    where
      cleared :
          (b c : Bool) (v : Option (List ℕ))
          → ((v ≡ none) ⊎ (b ≡ true))
          → (if b && c then none else v) ≡ (if c then none else v)
      cleared true c v l = refl
      cleared false true v (inl e) = e
      cleared false true v (inr e) = absurd (cc e)
      cleared false false v l = refl

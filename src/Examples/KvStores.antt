-- ===== src/Examples/KvStores.antt =====
-- Values of two entities, of which one is cleared.
use samizdat.Prelude.{
  ℕ, zero, suc, ◌≡◌, refl, ◌∙◌, ap, inr, List, [], ◌∷◌, Option, none, some, if◌then◌else◌,
}
use samizdat.Hash.{hash_eq}
use samizdat.Codec.{Codec, ReadsBack}
use samizdat.Text.{Str}
use samizdat.Store.{Table, put}
use samizdat.Access.{Entity}
use samizdat.KvStore.{entity_eq, value_key, get_value, put_value, clear_batch, clear_values}
use samizdat.KvStore.Scopes.{get_value-clear_values}

-- A text is written with its letters raised, up to a zero.
abbrev write_text : Str → List ℕ → List ℕ
write_text [] rest = 0 ∷ rest
write_text (c ∷ s) rest = suc c ∷ write_text s rest

abbrev add_letter : ℕ → Str × List ℕ → Str × List ℕ
add_letter c (s, rest) = (c ∷ s, rest)

abbrev read_text : List ℕ → Str × List ℕ
read_text [] = ([], [])
read_text (zero ∷ rest) = ([], rest)
read_text (suc c ∷ rest) = add_letter c (read_text rest)

read_text-write_text : (s : Str) (rest : List ℕ) → read_text (write_text s rest) ≡ (s, rest)
read_text-write_text [] rest = refl
read_text-write_text (c ∷ s) rest = ap (add_letter c) (read_text-write_text s rest)

abbrev read_tail : Str → Str → Str × List ℕ → Option (Entity × Str)
read_tail kind name (tail, rest) = some (record { type_ = kind; identifier = name }, tail)

abbrev read_name : Str → Str × List ℕ → Option (Entity × Str)
read_name kind (name, rest) = read_tail kind name (read_text rest)

abbrev read_kind : Str × List ℕ → Option (Entity × Str)
read_kind (kind, rest) = read_name kind (read_text rest)

abbrev scopes : Codec (Entity × Str)
scopes = record {
  serialize = λ v. write_text v.0.type_ (write_text v.0.identifier (write_text v.1 []));
  deserialize = λ bytes. read_kind (read_text bytes);
}

scopes-ReadsBack : ReadsBack scopes
scopes-ReadsBack = record {
  round_trip = λ v.
      ap read_kind (read_text-write_text v.0.type_ (write_text v.0.identifier (write_text v.1 [])))
      ∙ ap (read_name v.0.type_) (read_text-write_text v.0.identifier (write_text v.1 []))
      ∙ ap (read_tail v.0.type_ v.0.identifier) (read_text-write_text v.1 []);
}

abbrev alice : Entity
alice = record { type_ = 1 ∷ []; identifier = 7 ∷ [] }

abbrev bob : Entity
bob = record { type_ = 1 ∷ []; identifier = 8 ∷ [] }

abbrev colour : Str
colour = 3 ∷ []

abbrev nothing_kept : Table
nothing_kept k = none

abbrev kept : Table
kept = put_value scopes (put_value scopes nothing_kept alice colour (5 ∷ [])) bob colour (6 ∷ [])

abbrev kept_keys : List (List ℕ)
kept_keys = value_key scopes alice colour ∷ value_key scopes bob colour ∷ []

abbrev cleared : Table
cleared = put kept (value_key scopes alice colour) none

get_value-clear_values_example :
    get_value scopes cleared bob colour
    ≡ (if entity_eq alice bob then none else get_value scopes kept bob colour)
unfolding clear_values clear_batch hash_eq
get_value-clear_values_example =
    get_value-clear_values scopes scopes-ReadsBack kept cleared alice bob colour kept_keys
      (inr refl) refl

bob_keeps : get_value scopes cleared bob colour ≡ some (6 ∷ [])
unfolding get_value put_value hash_eq
bob_keeps = refl

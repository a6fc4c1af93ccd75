-- ===== src/Examples/Items.antt =====
-- A collection of two items.
use samizdat.Codec.{Codec}
use samizdat.Prelude.{none, ◌≢◌, ℕ, ◌≡◌, ◌⊎◌, refl, List, [], ◌∷◌, some, false}
use samizdat.Hash.{Hash, default, hash_eq, hash_eq_iff}
use samizdat.Text.{Str}
use samizdat.Patricia.Segment.{bits, byte_bits}
use samizdat.Patricia.Proof.{is_in, bit_length, sum_lens, is_in_loop, is_in_segment}
use samizdat.Patricia.Proof.Binding.{Collision}
use samizdat.Collection.Items.{CollectionItem, paths, build, is_valid, object, locator_hash}
use samizdat.Collection.Items.Building.{Serve, object_at, build-Serve}
use samizdat.Collection.Items.Binding.{IsSized, object_binding}
use samizdat.Collection.Tables.{Tables}
use samizdat.Examples.{key_of, toy, toy-IsHash, constant, constant-IsHash}

abbrev objects : List (Str × Hash)
objects = (b'a' ∷ [], key_of 1) ∷ (b'b' ∷ [], key_of 2) ∷ []

build-Serve_example :
    (root : Hash) × (items : List CollectionItem) × (build toy false objects (key_of 3)
      ≡ some (root, items))
    × Serve toy toy-IsHash root (object_at toy toy-IsHash objects (key_of 3)) (paths objects) items
build-Serve_example = build-Serve toy toy-IsHash false objects (key_of 3)

abbrev pub item_with : Hash → CollectionItem
item_with value = record {
  collection = default;
  name = b'a' ∷ [];
  inclusion_proof = record {
    claimed_key = default;
    claimed_value = value;
    path = (default, 223) ∷ [];
  };
  is_draft = false;
}

item_with-object : (value : Hash) → object constant (item_with value) ≡ some (some value)
unfolding object is_valid is_in bit_length sum_lens is_in_loop is_in_segment bits byte_bits hash_eq
item_with-object value = refl

item_with-IsSized : (b : ℕ) → IsSized (item_with (key_of b))
item_with-IsSized b = record { value = refl; path = (refl, tt) }

object_binding_example : (key_of 1 ≡ key_of 2) ⊎ Collision constant
object_binding_example =
    object_binding constant (λ x. (constant-IsHash x).sized) (item_with (key_of 1))
      (item_with (key_of 2)) (key_of 1) (key_of 2) (constant-IsHash (item_with (key_of 1)).name)
      (item_with-IsSized 1) (item_with-IsSized 2) refl refl (item_with-object (key_of 1))
      (item_with-object (key_of 2))

-- Bytes that stand for one item only.
abbrev pub one_item : Codec CollectionItem
one_item = record { serialize = λ item. []; deserialize = λ bytes. some (item_with (key_of 1)) }

abbrev no_items : Tables
no_items = record { collection_items = λ k. none; collection_item_locators = λ k. none }

locators_differ : locator_hash toy default (b'b' ∷ []) ≢ locator_hash toy default (b'a' ∷ [])
unfolding locator_hash hash_eq
locators_differ e = absurd (cc ((hash_eq_iff _ _).1 e))

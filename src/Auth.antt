-- ===== src/Auth.antt =====
-- node/src/http/auth.rs: who may call the protected routes of the node. Errors of the key-value store
-- are not modelled; bytes that cannot be read back are.
pub mod Requests
pub mod Granting
use samizdat.Prelude.{
  ℕ, zero, suc, ◌+◌, ◌/◌, ◌*◌, Bool, true, false, not, ◌&&◌, ◌||◌, ◌⊎◌, inl, inr, List, [], ◌∷◌,
  ◌++◌, Option, none, some, ◌==◌, leb, if◌then◌else◌, length,
}
use samizdat.Hash.{hash_eq}
use samizdat.Text.{Str}
use samizdat.Store.{Table, put}
use samizdat.Access.{AccessRight, rank, right_eq, Entity, from_path}

-- `contains`
abbrev pub contains : List AccessRight → AccessRight → Bool
contains [] right = false
contains (x ∷ xs) right = right_eq x right || contains xs right

-- `sort_unstable`, by insertion: equal rights cannot be told apart.
abbrev pub insert_right : AccessRight → List AccessRight → List AccessRight
insert_right right [] = right ∷ []
insert_right right (x ∷ xs) =
    let rest = insert_right right xs in
    if leb (rank right) (rank x) then right ∷ x ∷ xs else x ∷ rest

abbrev pub sort_rights : List AccessRight → List AccessRight
sort_rights [] = []
sort_rights (x ∷ xs) = insert_right x (sort_rights xs)

-- `dedup`: of equal neighbours one stays.
abbrev pub dedup : List AccessRight → List AccessRight
dedup [] = []
dedup (x ∷ []) = x ∷ []
dedup (x ∷ y ∷ xs) = let rest = dedup (y ∷ xs) in if right_eq x y then rest else x ∷ rest

-- `bincode` for entities and lists of rights.
pub record RightsCodec : Type 0 where
  pub encode_entity : Entity → List ℕ
  pub encode_rights : List AccessRight → List ℕ
  pub decode_rights : List ℕ → Option (List AccessRight)

-- `Result<T, crate::Error>`
pub data Failure : Type 0 where
  not_an_entity bad_bytes : Failure

pub data Answer (A : Type 0) : Type 0 where
  ok : A → Answer A
  failed : Failure → Answer A

abbrev pub read_answer : Option (List AccessRight) → Answer (List AccessRight)
read_answer none = failed bad_bytes
read_answer (some rights) = ok rights

module _ (codec : RightsCodec) where
  open codec use {encode_entity, encode_rights, decode_rights}

  abbrev pub read_rights : Option (List ℕ) → Answer (List AccessRight)
  read_rights none = ok []
  read_rights (some bytes) = read_answer (decode_rights bytes)

  -- `get_cf(..)?.map(deserialize).transpose()?.unwrap_or_default()`
  unfoldable pub granted_rights : Table → Entity → Answer (List AccessRight)
  granted_rights rights entity = read_rights (rights (encode_entity entity))

  -- `ok_or_else(|| "not an entity")?`, for each of the handlers.
  abbrev pub get_at : Table → Option Entity → Answer (List AccessRight)
  get_at rights none = failed not_an_entity
  get_at rights (some entity) = granted_rights rights entity

  unfoldable pub get_auth : Table → Str → Answer (List AccessRight)
  get_auth rights tail = get_at rights (from_path tail)

  abbrev pub store_rights : Table → Entity → List AccessRight → Table
  store_rights rights entity current =
      put rights (encode_entity entity) (some (encode_rights current))

  abbrev pub grant :
      Table → Entity → List AccessRight → Answer (List AccessRight) → Table × Answer Unit
  grant rights entity more (failed why) = (rights, failed why)
  grant rights entity more (ok current) =
      (store_rights rights entity (dedup (sort_rights (current ++ more))), ok tt)

  abbrev pub patch_at : Table → List AccessRight → Option Entity → Table × Answer Unit
  patch_at rights more none = (rights, failed not_an_entity)
  patch_at rights more (some entity) = grant rights entity more (granted_rights rights entity)

  -- `patch_auth`, with the request's `granted_rights`.
  unfoldable pub patch_auth : Table → Str → List AccessRight → Table × Answer Unit
  patch_auth rights tail more = patch_at rights more (from_path tail)

  abbrev pub delete_at : Table → Option Entity → Table × Answer Unit
  delete_at rights none = (rights, failed not_an_entity)
  delete_at rights (some entity) = (put rights (encode_entity entity) none, ok tt)

  unfoldable pub delete_auth : Table → Str → Table × Answer Unit
  delete_auth rights tail = delete_at rights (from_path tail)

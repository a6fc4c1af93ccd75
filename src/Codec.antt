-- ===== src/Codec.antt =====
-- `bincode::serialize` and `bincode::deserialize`, of the crate `bincode`, for the values of a type.
use samizdat.Prelude.{ℕ, ◌≡◌, List, Option, some}

-- `none` is the error of `deserialize`.
pub record Codec (T : Type 0) : Type 0 where
  pub serialize : T → List ℕ
  pub deserialize : List ℕ → Option T

-- What was written is read back.
pub record ReadsBack {T : Type 0} (codec : Codec T) : Type 0 where
  pub round_trip : (x : T) → codec.deserialize (codec.serialize x) ≡ some x

-- ===== src/Store.antt =====
-- node/src/db/mod.rs: a table of the key-value store, from keys to values. Keys and values are bytes.
use samizdat.Prelude.{ℕ, List, Option, if◌then◌else◌}
use samizdat.Hash.{hash_eq}

abbrev pub Table : Type 0
Table = List ℕ → Option (List ℕ)

-- `put_cf`, or `delete_cf` for `none`.
abbrev pub put : Table → List ℕ → Option (List ℕ) → Table
put t key value k = if hash_eq k key then value else t k

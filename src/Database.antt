-- ===== src/Database.antt =====
-- node/src/db/mod.rs: the tables of the node, and the batches that are written to them at once. Errors
-- of the key-value store itself are not modelled.
use samizdat.Prelude.{ℕ, ◌==◌, List, [], ◌∷◌, none, some, if◌then◌else◌}
use samizdat.Store.{Table, put}
use samizdat.Bookmark.{Bincode, BatchEntry, apply_entry}

-- The column families.
pub data TableName : Type 0 where
  global migrations objects object_metadata object_chunks object_statistics : TableName
  bookmarks collection_items collection_item_locators series editions : TableName
  series_freshnesses series_owners identities subscriptions recent_nonces : TableName
  access_rights kv_store : TableName

-- The place of a table in the enumeration.
abbrev pub table_number : TableName → ℕ
table_number global = 0
table_number migrations = 1
table_number objects = 2
table_number object_metadata = 3
table_number object_chunks = 4
table_number object_statistics = 5
table_number bookmarks = 6
table_number collection_items = 7
table_number collection_item_locators = 8
table_number series = 9
table_number editions = 10
table_number series_freshnesses = 11
table_number series_owners = 12
table_number identities = 13
table_number subscriptions = 14
table_number recent_nonces = 15
table_number access_rights = 16
table_number kv_store = 17

abbrev pub Db : Type 0
Db = TableName → Table

abbrev pub set_table : Db → TableName → Table → Db
set_table db name t other = if table_number other == table_number name then t else db other

-- `db().put_cf` and `db().delete_cf`.
abbrev pub put_cf : Db → TableName → List ℕ → List ℕ → Db
put_cf db name key value = set_table db name (put (db name) key (some value))

abbrev pub delete_cf : Db → TableName → List ℕ → Db
delete_cf db name key = set_table db name (put (db name) key none)

-- `WriteBatch`: merges are for the table of bookmarks only, which has a merge operator.
pub data Entry : Type 0 where
  put_entry : TableName → List ℕ → List ℕ → Entry
  delete_entry : TableName → List ℕ → Entry
  bookmark_entry : BatchEntry → Entry

abbrev pub write_entry : Bincode → Db → Entry → Db
write_entry b db (put_entry name key value) = put_cf db name key value
write_entry b db (delete_entry name key) = delete_cf db name key
write_entry b db (bookmark_entry entry) =
    set_table db bookmarks (apply_entry b (db bookmarks) entry)

-- `db().write(batch)`
abbrev pub write_batch : Bincode → Db → List Entry → Db
write_batch b db [] = db
write_batch b db (entry ∷ batch) = write_batch b (write_entry b db entry) batch

-- The entries for the table of bookmarks, in a batch of all tables.
abbrev pub bookmark_entries : List BatchEntry → List Entry
bookmark_entries [] = []
bookmark_entries (entry ∷ batch) = bookmark_entry entry ∷ bookmark_entries batch

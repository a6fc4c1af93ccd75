-- ===== src/Objects/Reading/Dropping.antt =====
-- node/src/models/object.rs: what is left behind an object that is dropped.
use samizdat.Prelude.{
  ℕ, ◌≡◌, refl, ap, ◌∙◌, ◌==◌, Bool, true, false, List, [], ◌∷◌, ◌++◌, append_assoc, ◌||◌, Option,
  none, some, arith, Bool-cases, inl, inr, ◌>>=◌, if◌then◌else◌,
}
use samizdat.Hash.{Hash, hash_eq, hash_eq_iff}
use samizdat.Bookmark.{
  Bincode, BookmarkType, reference, user, key, clear_with, apply_entry, is_marked, is_bookmarked,
  get_count, decode_or_default, eval_on_zero,
}
use samizdat.Database.{
  Db, TableName, table_number, Entry, delete_entry, write_batch, write_entry, delete_cf,
  bookmark_entries, objects, object_chunks, object_metadata, object_statistics, bookmarks,
}
use samizdat.Objects.Building.{ObjectMetadata, ObjectCodecs}
use samizdat.Objects.Reading.{
  get_chunk, collect_chunks, metadata, statistics, chunks, delete_chunks, drop_known, drop_entries,
  drop_if_exists,
}
use samizdat.Objects.Reading.Contents.{hash_eq_refl}

-- Whether a hash is in a list.
abbrev pub has : List Hash → Hash → Bool
has [] hash = false
has (h ∷ hs) hash = hash_eq hash h || has hs hash

abbrev no_chunks : Option (List (List ℕ))
no_chunks = none

bind_none : (o : Option (List ℕ)) → (o >>= (λ chunk. no_chunks)) ≡ none
bind_none none = refl
bind_none (some chunk) = refl

write_batch-append :
    (b : Bincode) (db : Db) (xs ys : List Entry)
    → write_batch b db (xs ++ ys) ≡ write_batch b (write_batch b db xs) ys
write_batch-append b db [] ys = refl
write_batch-append b db (x ∷ xs) ys = write_batch-append b (write_entry b db x) xs ys

module _ (digest : List ℕ → Hash) (codecs : ObjectCodecs) where
  abbrev b : Bincode
  b = codecs.bookmarks

  get_chunk-delete_chunks :
      (db : Db) (keys : List Hash) (k : Hash)
      → get_chunk (write_batch b db (delete_chunks digest codecs keys)) k
        ≡ (if has keys k then none else get_chunk db k)
  get_chunk-delete_chunks db [] k = refl
  get_chunk-delete_chunks db (h ∷ hs) k =
      get_chunk-delete_chunks (delete_cf db object_chunks h) hs k ∙ ground arith

  other-delete_chunks :
      (db : Db) (keys : List Hash) (name : TableName)
      → (table_number name == 4) ≡ false
      → write_batch b db (delete_chunks digest codecs keys) name ≡ db name
  other-delete_chunks db [] name differ = refl
  other-delete_chunks db (h ∷ hs) name differ =
      other-delete_chunks (delete_cf db object_chunks h) hs name differ ∙ rw differ refl

  abbrev after_drop : Db → Hash → ObjectMetadata → Db
  after_drop db hash m = write_batch b db (drop_known digest codecs hash (some m))

  abbrev forget : Hash → List Entry
  forget hash =
      bookmark_entries (
        clear_with b (record { ty = user; object = hash })
          (clear_with b (record { ty = reference; object = hash }) []))
      ++ delete_entry object_statistics hash
        ∷ delete_entry object_metadata hash
        ∷ delete_entry objects hash
        ∷ []

  after_drop_table :
      (db : Db) (hash : Hash) (m : ObjectMetadata) (name : TableName)
      → after_drop db hash m name
        ≡ write_batch b (write_batch b db (delete_chunks digest codecs m.hashes)) (forget hash) name
  after_drop_table db hash m name =
      ap (λ d. d name)
        (ap (write_batch b db) (append_assoc (delete_chunks digest codecs m.hashes) _ _)
          ∙ write_batch-append b db (delete_chunks digest codecs m.hashes) (forget hash))

  bookmark_deleted :
      (db : Db) (hash : Hash) (m : ObjectMetadata) (ty : BookmarkType)
      → after_drop db hash m bookmarks (key b (record { ty = ty; object = hash })) ≡ none
  unfolding clear_with apply_entry
  bookmark_deleted db hash m reference =
      rw (after_drop_table db hash m bookmarks)
        (elim (Bool-cases (
          hash_eq (key b (record { ty = reference; object = hash }))
            (key b (record { ty = user; object = hash })))) [
              | inl e ↦ rw e refl
              | inr e ↦
                  rw e (rw (hash_eq_refl (key b (record { ty = reference; object = hash }))) refl)
            ])
  bookmark_deleted db hash m user =
      rw (after_drop_table db hash m bookmarks)
        (rw (hash_eq_refl (key b (record { ty = user; object = hash }))) refl)

  bookmark_gone :
      (db : Db) (hash : Hash) (m : ObjectMetadata)
      → is_bookmarked b (after_drop db hash m bookmarks) hash ≡ some false
  unfolding is_bookmarked is_marked get_count decode_or_default eval_on_zero
  bookmark_gone db hash m =
      rw (bookmark_deleted db hash m reference) (rw (bookmark_deleted db hash m user) refl)

  metadata_gone :
      (db : Db) (hash : Hash) (m : ObjectMetadata) (other : Hash)
      → metadata digest codecs (after_drop db hash m) other
        ≡ (if hash_eq other hash then some none else metadata digest codecs db other)
  unfolding metadata clear_with apply_entry
  metadata_gone db hash m other = rw (after_drop_table db hash m object_metadata) (
      rw (other-delete_chunks db m.hashes object_metadata refl)
        (elim (Bool-cases (hash_eq other hash)) [ inl e ↦ rw e refl | inr e ↦ rw e refl ]))

  statistics_gone :
      (db : Db) (hash : Hash) (m : ObjectMetadata)
      → statistics digest codecs (after_drop db hash m) hash ≡ some none
  unfolding statistics clear_with apply_entry
  statistics_gone db hash m =
      rw (after_drop_table db hash m object_statistics) (rw (hash_eq_refl hash) refl)

  object_gone :
      (db : Db) (hash : Hash) (m : ObjectMetadata) → after_drop db hash m objects hash ≡ none
  unfolding clear_with apply_entry
  object_gone db hash m = rw (after_drop_table db hash m objects) (rw (hash_eq_refl hash) refl)

  chunk_gone :
      (db : Db) (hash : Hash) (m : ObjectMetadata) (k : Hash)
      → get_chunk (after_drop db hash m) k ≡ (if has m.hashes k then none else get_chunk db k)
  unfolding clear_with apply_entry
  chunk_gone db hash m k =
      ap (λ t. t k) (after_drop_table db hash m object_chunks)
      ∙ get_chunk-delete_chunks db m.hashes k

  drop_runs :
      (db : Db) (hash : Hash) (m : ObjectMetadata)
      → metadata digest codecs db hash ≡ some (some m)
      → drop_if_exists digest codecs db hash ≡ some (after_drop db hash m)
  unfolding drop_if_exists drop_entries
  drop_runs db hash m known = rw known refl

  collect_missing :
      (db : Db) (keys : List Hash) (k : Hash)
      → get_chunk db k ≡ none
      → has keys k ≡ true
      → collect_chunks db keys ≡ none
  unfolding collect_chunks
  collect_missing db [] k missing h = absurd (cc (h))
  collect_missing db (key ∷ keys) k missing h = elim (Bool-cases (hash_eq k key)) [
    | inl e ↦ rw (← (hash_eq_iff k key).0 e) (rw missing refl)
    | inr e ↦ rw (collect_missing db keys k missing (rw e at h)) (bind_none (get_chunk db key))
  ]

-- Dropping an object whose metadata is read leaves tables in which the object, its metadata, its
-- statistics and both its bookmarks are gone. Of the chunks exactly those that the metadata lists are
-- gone, and the metadata of every other object is as before.
pub drop_if_exists_lem :
    (digest : List ℕ → Hash) (codecs : ObjectCodecs) (db : Db) (hash : Hash) (m : ObjectMetadata)
    (chunk other : Hash)
    → metadata digest codecs db hash ≡ some (some m)
    → (after : Db) × (drop_if_exists digest codecs db hash ≡ some after)
      × (after objects hash ≡ none)
      × (statistics digest codecs after hash ≡ some none)
      × (is_bookmarked codecs.bookmarks (after bookmarks) hash ≡ some false)
      × (get_chunk after chunk ≡ (if has m.hashes chunk then none else get_chunk db chunk))
      × (metadata digest codecs after other
          ≡ (if hash_eq other hash then some none else metadata digest codecs db other))
drop_if_exists_lem digest codecs db hash m chunk other known = (
  after_drop digest codecs db hash m,
  drop_runs digest codecs db hash m known,
  object_gone digest codecs db hash m,
  statistics_gone digest codecs db hash m,
  bookmark_gone digest codecs db hash m,
  chunk_gone digest codecs db hash m chunk,
  metadata_gone digest codecs db hash m other,
)

-- If two different objects have a chunk in common, then dropping one of them leaves the metadata of
-- the other in place, but its chunks can no longer be read.
pub chunks-drop_if_exists :
    (digest : List ℕ → Hash) (codecs : ObjectCodecs) (db : Db) (hash other : Hash)
    (m kept : ObjectMetadata) (chunk : Hash)
    → metadata digest codecs db hash ≡ some (some m)
    → metadata digest codecs db other ≡ some (some kept)
    → hash_eq other hash ≡ false
    → has m.hashes chunk ≡ true
    → has kept.hashes chunk ≡ true
    → (after : Db) × (drop_if_exists digest codecs db hash ≡ some after)
      × (metadata digest codecs after other ≡ some (some kept))
      × (chunks digest codecs after other ≡ none)
unfolding chunks
chunks-drop_if_exists digest codecs db hash other m kept chunk known known_other differ in_m
      in_kept =
    let after = after_drop digest codecs db hash m in
    let still : metadata digest codecs after other ≡ some (some kept) =
      metadata_gone digest codecs db hash m other ∙ rw differ known_other in
    let missing : get_chunk after chunk ≡ none =
      chunk_gone digest codecs db hash m chunk ∙ rw in_m refl in
    (
      after,
      drop_runs digest codecs db hash m known,
      still,
      rw still (rw (collect_missing digest codecs after kept.hashes chunk missing in_kept) refl),
    )

-- ===== src/Series.antt =====
-- node/src/models/series.rs: `SeriesOwner`, `SeriesRef` and `Edition`; common/src/pki.rs: `Signed`. The
-- signatures of the crate `ed25519_dalek` are a parameter; a key is its bytes, and times are in seconds.
pub mod Editions
use samizdat.Prelude.{
  ℕ, zero, suc, ◌+◌, ◌/◌, ◌%◌, ltb, Bool, true, false, not, List, [], ◌∷◌, ◌++◌, Option, none, some,
  ◌>>=◌, if◌then◌else◌,
}
use samizdat.Hash.{Hash, hash_eq}
use samizdat.Codec.{Codec}
use samizdat.Text.{Str}
use samizdat.Cipher.{Aead, new_cipher, encrypt_opaque}
use samizdat.Riddle.{Riddle, new_with_nonce}
use samizdat.Bookmark.{Bincode, BatchEntry, Bookmark, reference, mark_with, unmark_with}
use samizdat.Database.{
  Db, Entry, put_entry, delete_entry, put_cf, write_batch, bookmark_entries, series, editions,
  series_owners, series_freshnesses,
}

pub record Keypair : Type 0 where
  pub public : List ℕ
  pub secret : List ℕ

-- `Keypair::sign` and `PublicKey::verify`.
pub record Signatures : Type 0 where
  pub sign_bytes : Keypair → List ℕ → List ℕ
  pub verify_bytes : List ℕ → List ℕ → List ℕ → Bool

pub record Signed (T : Type 0) : Type 0 where
  pub content : T
  pub signature : List ℕ

abbrev pub new_signed : {T : Type 0} → Signatures → Codec T → T → Keypair → Signed T
new_signed s codec content keypair = record {
  content = content;
  signature = s.sign_bytes keypair (codec.serialize content);
}

abbrev pub verify : {T : Type 0} → Signatures → Codec T → Signed T → List ℕ → Bool
verify s codec signed public_key =
    s.verify_bytes public_key (codec.serialize signed.content) signed.signature

pub record EditionContent : Type 0 where
  pub collection : Hash
  pub timestamp : ℕ
  pub ttl : ℕ

pub record Edition : Type 0 where
  pub signed : Signed EditionContent
  pub public_key : List ℕ
  pub is_draft : Bool

pub record SeriesRef : Type 0 where
  pub public_key : List ℕ

pub record SeriesOwner : Type 0 where
  pub name : Str
  pub keypair : Keypair
  pub default_ttl : ℕ
  pub is_draft : Bool

-- The last `count` bytes of a number, the first one first.
abbrev pub be_bytes : ℕ → ℕ → List ℕ
be_bytes zero n = []
be_bytes (suc count) n = be_bytes count (n / 256) ++ n % 256 ∷ []

-- `Edition::key`
abbrev pub edition_key : Edition → List ℕ
edition_key e = e.public_key ++ be_bytes 8 e.signed.content.timestamp

abbrev pub series_of : SeriesOwner → SeriesRef
series_of owner = record { public_key = owner.keypair.public }

abbrev pub or_ttl : ℕ → Option ℕ → ℕ
or_ttl default_ttl none = default_ttl
or_ttl default_ttl (some ttl) = ttl

pub record SeriesCodecs : Type 0 where
  pub contents : Codec EditionContent
  pub edition_codec : Codec Edition
  pub refs : Codec SeriesRef
  pub owners : Codec SeriesOwner
  pub times : Codec ℕ
  pub bookmark_codec : Bincode

-- The errors of `SeriesRef::advance`.
pub data Advance : Type 0 where
  invalid_edition different_public_keys : Advance
  advanced : Db → Advance

-- `sort_unstable_by_key` with the latest edition first; editions of one time come in an order that the
-- code leaves open.
unfoldable pub insert_edition : Edition → List Edition → List Edition
insert_edition e [] = e ∷ []
insert_edition e (f ∷ sorted) =
    let rest = insert_edition e sorted in
    if ltb e.signed.content.timestamp f.signed.content.timestamp then f ∷ rest else e ∷ f ∷ sorted

abbrev pub sort_editions : List Edition → List Edition
sort_editions [] = []
sort_editions (e ∷ es) = insert_edition e (sort_editions es)

module _ (s : Signatures) (codecs : SeriesCodecs) where
  -- `Edition::is_valid`
  unfoldable pub edition_is_valid : Edition → Bool
  edition_is_valid e = verify s codecs.contents e.signed e.public_key

  -- `SeriesOwner::insert`
  abbrev pub insert_owner : SeriesOwner → List Entry
  insert_owner owner =
      put_entry series_owners owner.name (codecs.owners.serialize owner)
      ∷ put_entry series owner.keypair.public (codecs.refs.serialize (series_of owner))
      ∷ []

  -- `create`, with the key pair that is drawn, and `import`.
  abbrev pub create_owner : Db → Str → Keypair → ℕ → Bool → Db × SeriesOwner
  create_owner db name keypair default_ttl is_draft =
      let owner : SeriesOwner = record {
        name = name;
        keypair = keypair;
        default_ttl = default_ttl;
        is_draft = is_draft;
      } in
      (write_batch codecs.bookmark_codec db (insert_owner owner), owner)

  -- `SeriesOwner::drop_if_exists_with`
  abbrev pub drop_owner : SeriesOwner → List Entry
  drop_owner owner = delete_entry series_owners owner.name ∷ []

  abbrev pub read_owner : Option (List ℕ) → Option (Option SeriesOwner)
  read_owner none = some none
  read_owner (some bytes) = do owner ← codecs.owners.deserialize bytes; some (some owner)

  -- `SeriesOwner::get`
  unfoldable pub get_owner : Db → Str → Option (Option SeriesOwner)
  get_owner db name = read_owner (db series_owners name)

  -- `SeriesOwner::sign`, at the time `now`.
  unfoldable pub sign : SeriesOwner → Hash → Option ℕ → ℕ → Edition
  sign owner collection ttl now =
      let content : EditionContent = record {
        collection = collection;
        timestamp = now;
        ttl = or_ttl owner.default_ttl ttl;
      } in
      record {
        signed = new_signed s codecs.contents content owner.keypair;
        public_key = owner.keypair.public;
        is_draft = owner.is_draft;
      }

  -- `SeriesRef::get_editions`, of what the table lists for the series.
  unfoldable pub read_editions : List (List ℕ) → Option (List Edition)
  read_editions [] = some []
  read_editions (value ∷ values) = do
    e ← codecs.edition_codec.deserialize value
    es ← read_editions values
    some (e ∷ es)

  unfoldable pub get_editions : List (List ℕ) → Option (List Edition)
  get_editions values = do es ← read_editions values; some (sort_editions es)

  -- `SeriesRef::advance`
  unfoldable pub advance : Db → SeriesRef → Edition → Advance
  advance db r e =
      if not (edition_is_valid e)
      then invalid_edition
      else if not (hash_eq r.public_key e.public_key)
      then different_public_keys
      else advanced (
          write_batch codecs.bookmark_codec db (
            put_entry series r.public_key (codecs.refs.serialize r)
            ∷ put_entry editions (edition_key e) (codecs.edition_codec.serialize e)
            ∷ []))

  -- `refresh` and `mark_delayed`
  abbrev pub refresh : Db → SeriesRef → ℕ → Db
  refresh db r now = put_cf db series_freshnesses r.public_key (codecs.times.serialize now)

  abbrev pub fresh_until : ℕ → Edition → Option (List ℕ) → Option Bool
  fresh_until now latest none = some false
  fresh_until now latest (some bytes) = do
    freshness ← codecs.times.deserialize bytes
    some (ltb now (freshness + latest.signed.content.ttl))

  abbrev pub fresh_of : Db → SeriesRef → ℕ → List Edition → Option Bool
  fresh_of db r now [] = some false
  fresh_of db r now (latest ∷ older) = fresh_until now latest (db series_freshnesses r.public_key)

  -- `is_fresh`
  unfoldable pub is_fresh : Db → SeriesRef → ℕ → List (List ℕ) → Option Bool
  is_fresh db r now values = get_editions values >>= fresh_of db r now

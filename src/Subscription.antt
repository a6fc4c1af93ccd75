-- ===== src/Subscription.antt =====
-- node/src/models/subscription.rs: subscriptions to series. A query to the hubs is an argument; a refresh
-- gives the tables behind it and the queries that it makes.
use samizdat.Prelude.{ℕ, Bool, true, List, [], ◌∷◌, map, Option, none, some, ◌>>=◌}
use samizdat.Codec.{Codec}
use samizdat.Hash.{Hash}
use samizdat.Text.{Str}
use samizdat.Riddle.{Riddle}
use samizdat.Bookmark.{Bincode}
use samizdat.Collection.Items.{inventory_path, locator_hash}
use samizdat.Database.{Db, Entry, put_entry, delete_entry, write_batch, subscriptions}
use samizdat.Series.{
  Signatures, SeriesCodecs, Edition, Advance, invalid_edition, different_public_keys, advanced,
  advance, refresh,
}
use samizdat.Lookup.{key_hash, find_value}

pub data SubscriptionKind : Type 0 where
  full_inventory : SubscriptionKind

pub record Subscription : Type 0 where
  pub public_key : List ℕ
  pub kind : SubscriptionKind

pub record SubscriptionRef : Type 0 where
  pub public_key : List ℕ

module _ (codec : Codec Subscription) (bincode : Bincode) where
  -- `SubscriptionRef::build`
  abbrev pub build_subscription : Db → Subscription → Db × SubscriptionRef
  build_subscription db subscription = (
    write_batch bincode db
        (put_entry subscriptions subscription.public_key (codec.serialize subscription) ∷ []),
    record { public_key = subscription.public_key },
  )

  abbrev pub read_subscription : Option (List ℕ) → Option (Option Subscription)
  read_subscription none = some none
  read_subscription (some value) = do
    subscription ← codec.deserialize value
    some (some subscription)

  -- `SubscriptionRef::get`: the outer `none` is the error of `deserialize`.
  abbrev pub get_subscription : Db → SubscriptionRef → Option (Option Subscription)
  get_subscription db r = read_subscription (db subscriptions r.public_key)

  -- `drop_if_exists_with`
  abbrev pub drop_subscription : SubscriptionRef → List Entry → List Entry
  drop_subscription r batch = delete_entry subscriptions r.public_key ∷ batch

-- `SubscriptionRef::find`, which reads the value of a `Subscription` as a reference.
abbrev pub find_subscription :
    Codec SubscriptionRef
    → (List ℕ → Hash)
    → (List ℕ → Bool)
    → Riddle
    → List (List ℕ × List ℕ)
    → Option SubscriptionRef
find_subscription refs digest is_key riddle entries =
    find_value digest (key_hash digest is_key) riddle entries >>= refs.deserialize

-- `must_refresh`
abbrev pub must_refresh : Bool
must_refresh = true

-- How a refresh ends, with the tables that it leaves and the items that it asks the hubs for.
pub data Refresh : Type 0 where
  refused_edition : Refresh
  inventory_not_found bad_inventory : Db → List Hash → Refresh
  refresh_done : Db → List Hash → Refresh

-- What came of the query for the inventory's item: its content, if it was found, as a list of paths.
pub data Inventoried : Type 0 where
  missing malformed : Inventoried
  listed : List Str → Inventoried

module _ (digest : List ℕ → Hash) (s : Signatures) (codecs : SeriesCodecs) where
  abbrev pub item_queries : Hash → List Str → List Hash
  item_queries collection paths = map (λ path. locator_hash digest collection path) paths

  abbrev pub refresh_items : Db → Hash → Hash → Inventoried → Refresh
  refresh_items db collection inventory missing = inventory_not_found db (inventory ∷ [])
  refresh_items db collection inventory malformed = bad_inventory db (inventory ∷ [])
  refresh_items db collection inventory (listed paths) =
      refresh_done db (inventory ∷ item_queries collection paths)

  abbrev pub refresh_advanced : Edition → ℕ → (Hash → Inventoried) → Advance → Refresh
  refresh_advanced edition now query invalid_edition = refused_edition
  refresh_advanced edition now query different_public_keys = refused_edition
  refresh_advanced edition now query (advanced db) =
      let collection = edition.signed.content.collection in
      let inventory_content_hash = locator_hash digest collection inventory_path in
      refresh_items (refresh s codecs db (record { public_key = edition.public_key }) now)
        collection inventory_content_hash (query inventory_content_hash)

  -- `SubscriptionRef::refresh`, at the time `now`.
  unfoldable pub refresh_subscription : Db → Edition → ℕ → (Hash → Inventoried) → Refresh
  refresh_subscription db edition now query =
      refresh_advanced edition now query
        (advance s codecs db (record { public_key = edition.public_key }) edition)

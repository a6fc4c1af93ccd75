-- ===== src/Resolvers.antt =====
-- node/src/http/resolvers.rs: how a request for content is answered, from the node's tables or with what the
-- hubs are asked for. A query to the hubs is a function on the tables. Headers of the reply are left out.
use samizdat.Prelude.{ℕ, Bool, true, false, List, [], ◌∷◌, Option, none, some}
use samizdat.Codec.{Codec}
use samizdat.Hash.{Hash}
use samizdat.Text.{Str}
use samizdat.Collection.Items.{CollectionItem, object, locator_hash}
use samizdat.Collection.Tables.{Tables, get}
use samizdat.Database.{Db, write_batch, collection_items, collection_item_locators}
use samizdat.Bookmark.{Bincode}
use samizdat.Objects.Building.{ObjectMetadata, ObjectCodecs}
use samizdat.Objects.Reading.{iter_skip_header, metadata, touch}
use samizdat.Series.{
  Signatures, SeriesCodecs, SeriesRef, Edition, Advance, invalid_edition, different_public_keys,
  advanced, advance, refresh, is_fresh, get_editions,
}
use samizdat.Identity.{Identity, IdentityRef, get_identity, insert_identity}

-- `Resolved`, with the body that is streamed, and `NotResolved`; `error` is an error of the call or a
-- panic, and has the tables too.
pub data Reply : Type 0 where
  resolved_as : Db → ObjectMetadata → List (Option ℕ) → Reply
  not_resolved error : Db → Reply

module _ (digest : List ℕ → Hash) (codecs : ObjectCodecs) (item_codec : Codec CollectionItem)
    (now : ℕ) (query_object query_item : Hash → Db → Db) where
  abbrev pub reply_touched : Db → ObjectMetadata → List (Option ℕ) → Option Db → Reply
  reply_touched db m source none = error db
  reply_touched db m source (some after) = resolved_as after m source

  -- `metadata()?.zip(iter)`
  abbrev pub reply_with :
      Db → Hash → Option (Option ObjectMetadata) → Option (List (Option ℕ)) → Reply
  reply_with db hash none iter = error db
  reply_with db hash (some none) iter = not_resolved db
  reply_with db hash (some (some m)) none = not_resolved db
  reply_with db hash (some (some m)) (some source) =
      reply_touched db m source (touch digest codecs db hash now)

  abbrev pub reply_read : Db → Hash → Option (Option (List (Option ℕ))) → Reply
  reply_read db hash none = error db
  reply_read db hash (some iter) = reply_with db hash (metadata digest codecs db hash) iter

  abbrev pub reply_queried : Db → Hash → Reply
  reply_queried db hash = reply_read db hash (iter_skip_header digest codecs db hash)

  abbrev pub reply_local : Db → Hash → Option (Option (List (Option ℕ))) → Reply
  reply_local db hash none = error db
  reply_local db hash (some none) = reply_queried (query_object hash db) hash
  reply_local db hash (some (some source)) = reply_read db hash (some (some source))

  -- `resolve_object`
  unfoldable pub reply_object : Db → Hash → Reply
  reply_object db hash = reply_local db hash (iter_skip_header digest codecs db hash)

  -- `Locator::get`
  abbrev pub get_located : Db → Hash → Str → Option (Option CollectionItem)
  get_located db collection name =
      let t : Tables = record {
        collection_items = db collection_items;
        collection_item_locators = db collection_item_locators;
      } in
      get digest item_codec t collection name

  abbrev pub reply_valid : Db → Option (Option Hash) → Reply
  reply_valid db none = error db
  reply_valid db (some none) = error db
  reply_valid db (some (some hash)) = reply_object db hash

  -- What comes of an item that was looked for; if there is none, the rest is done.
  abbrev pub reply_item_or : (Db → Reply) → Db → Option (Option CollectionItem) → Reply
  reply_item_or otherwise db none = error db
  reply_item_or otherwise db (some none) = otherwise db
  reply_item_or otherwise db (some (some item)) = reply_valid db (object digest item)

  abbrev pub ask_for_item : Db → Hash → Str → (Db → Reply) → Reply
  ask_for_item db collection name otherwise =
      let after = query_item (locator_hash digest collection name) db in
      reply_item_or otherwise after (get_located after collection name)

  abbrev pub reply_item_at : Db → Hash → Str → (Db → Reply) → Reply
  reply_item_at db collection name otherwise =
      reply_item_or (λ before. ask_for_item before collection name otherwise) db
        (get_located db collection name)

  -- `resolve_item`
  unfoldable pub reply_item : Db → Hash → Str → Reply
  reply_item db collection name = reply_item_at db collection name not_resolved

  -- The loop of `resolve_series` over the editions.
  unfoldable pub reply_editions : Str → List Edition → Db → Reply
  reply_editions name [] db = not_resolved db
  reply_editions name (edition ∷ editions) db =
      reply_item_at db edition.signed.content.collection name
        (λ after. reply_editions name editions after)

  module _ (s : Signatures) (series_codecs : SeriesCodecs) (series : SeriesRef)
      (listed : Db → List (List ℕ)) (get_latest : Option Edition) where
    -- What is taken from the network when the series is not fresh: `none` is an error.
    abbrev pub take_latest : Advance → Option Db
    take_latest invalid_edition = none
    take_latest different_public_keys = none
    take_latest (advanced db) = some (refresh s series_codecs db series now)

    abbrev pub freshen_with : Db → Option Edition → Option Db
    freshen_with db none = some (refresh s series_codecs db series now)
    freshen_with db (some latest) = take_latest (advance s series_codecs db series latest)

    abbrev pub freshen : Db → Option Bool → Option Db
    freshen db none = none
    freshen db (some true) = some db
    freshen db (some false) = freshen_with db get_latest

    abbrev pub reply_listed : Db → Str → Option (List Edition) → Reply
    reply_listed db name none = error db
    reply_listed db name (some editions) = reply_editions name editions db

    abbrev pub reply_freshened : Db → Str → Option Db → Reply
    reply_freshened db name none = error db
    reply_freshened db name (some after) =
        reply_listed after name (get_editions s series_codecs (listed after))

    -- `resolve_series`
    unfoldable pub reply_series : Db → Str → Reply
    reply_series db name =
        reply_freshened db name (freshen db (is_fresh s series_codecs db series now (listed db)))

  module _ (codec : Codec Identity) (bincode : Bincode) (identity_ref : IdentityRef)
      (ask_hubs : Option Identity) (reply_in : SeriesRef → Db → Reply) where
    abbrev pub reply_asked : Db → Option Identity → Reply
    reply_asked db none = not_resolved db
    reply_asked db (some identity) =
        reply_in identity.series
          (write_batch bincode db (insert_identity digest codec bincode identity []))

    abbrev pub reply_known : Db → Option (Option Identity) → Reply
    reply_known db none = error db
    reply_known db (some none) = reply_asked db ask_hubs
    reply_known db (some (some identity)) = reply_in identity.series db

    -- `resolve_identity`
    unfoldable pub reply_identity : Db → Reply
    reply_identity db = reply_known db (get_identity digest codec bincode db identity_ref)

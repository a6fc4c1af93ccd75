-- ===== src/NodeServer.antt =====
-- node/src/system/node_server.rs: `NodeServer`, what a node answers to its hub. A spawned task is part of
-- the result; a table is given as the list of its entries.
pub mod Serving
use samizdat.Prelude.{
  ℕ, Bool, true, false, not, ◌&&◌, List, [], ◌∷◌, map, Option, none, some, ◌>>=◌, if◌then◌else◌,
}
use samizdat.Codec.{Codec}
use samizdat.Hash.{Hash, hash_eq}
use samizdat.Cipher.{Aead, new_cipher, encrypt_opaque, decrypt_with}
use samizdat.Riddle.{Message, Riddle, MessageRiddle, new_with_nonce, resolve}
use samizdat.Database.{Db}
use samizdat.Collection.Items.{CollectionItem, locator_hash}
use samizdat.Objects.Building.{ObjectCodecs}
use samizdat.Objects.Reading.{find, is_draft}
use samizdat.Series.{Signatures, SeriesCodecs, Edition, SeriesRef, edition_is_valid, get_editions}
use samizdat.Bookmark.{Bincode}
use samizdat.Identity.{Identity, find_identity}
use samizdat.Subscription.{SubscriptionRef, find_subscription, must_refresh}
use samizdat.Lookup.{find_series, find_item}
use samizdat.Rpc.{
  ChannelAddr, QueryKind, object_kind, item_kind, EditionResponse, EditionAnnouncement, Resolution,
  IdentityResponse, ResolutionResponse, found, empty_resolution, not_found,
}

-- The tasks that are spawned: a transfer to a peer.
pub data Task : Type 0 where
  send_object_task : ChannelAddr → Hash → Task
  send_item_task : ChannelAddr → CollectionItem → Task

abbrev pub Served : Type 0
Served = ResolutionResponse × Option Task

abbrev pub no_object : Served
no_object = (not_found, none)

-- `is_draft().unwrap_or(true)`
abbrev pub unwrap_or_true : Option Bool → Bool
unwrap_or_true none = true
unwrap_or_true (some b) = b

-- The parts of a node that its server uses.
pub record NodeTables : Type 0 where
  pub db : Db
  pub objects : List Hash
  pub items : List (List ℕ × List ℕ)

module _ (digest : List ℕ → Hash) (codecs : ObjectCodecs) (aead : Aead)
    (addresses : Codec (Message ChannelAddr)) (item_codec : Codec CollectionItem) where
  -- `Riddle::new_with_nonce` of each of the validation nonces.
  abbrev pub validation_riddles : Hash → List Hash → List Riddle
  validation_riddles hash nonces = map (λ nonce. new_with_nonce digest hash nonce) nonces

  -- The answer once the peer's address is known, or not.
  abbrev pub answer_with : Resolution → Hash → (ChannelAddr → Task) → Option ChannelAddr → Served
  answer_with resolution hash task none = no_object
  answer_with resolution hash task (some peer_addr) =
      (found (validation_riddles hash resolution.validation_nonces), some (task peer_addr))

  abbrev pub answer_for : Resolution → Hash → (ChannelAddr → Task) → Served
  answer_for resolution hash task =
      answer_with resolution hash task
        (resolve digest aead addresses resolution.location_message_riddle hash)

  abbrev pub serve_object : NodeTables → Resolution → Option Hash → Served
  serve_object node resolution none = no_object
  serve_object node resolution (some hash) =
      if not (unwrap_or_true (is_draft digest codecs node.db hash))
      then answer_for resolution hash (λ peer_addr. send_object_task peer_addr hash)
      else no_object

  abbrev pub resolve_object_by : NodeTables → Resolution → List Riddle → Served
  resolve_object_by node resolution [] = (empty_resolution, none)
  resolve_object_by node resolution (content_riddle ∷ riddles) =
      serve_object node resolution (find digest content_riddle node.objects)

  unfoldable pub resolve_object : NodeTables → Resolution → Served
  resolve_object node resolution = resolve_object_by node resolution resolution.content_riddles

  abbrev pub serve_item : NodeTables → Resolution → Option (Option CollectionItem) → Served
  serve_item node resolution none = no_object
  serve_item node resolution (some none) = no_object
  serve_item node resolution (some (some item)) =
      if not item.is_draft
      then answer_for resolution (locator_hash digest item.collection item.name)
          (λ peer_addr. send_item_task peer_addr item)
      else no_object

  abbrev pub resolve_item_by : NodeTables → Resolution → List Riddle → Served
  resolve_item_by node resolution [] = (empty_resolution, none)
  resolve_item_by node resolution (content_riddle ∷ riddles) =
      serve_item node resolution (find_item digest item_codec content_riddle node.items)

  unfoldable pub resolve_item : NodeTables → Resolution → Served
  resolve_item node resolution = resolve_item_by node resolution resolution.content_riddles

  abbrev pub resolve_kind : NodeTables → Resolution → QueryKind → Served
  resolve_kind node resolution object_kind = resolve_object node resolution
  resolve_kind node resolution item_kind = resolve_item node resolution

  -- `resolve` of the trait `Node`.
  abbrev pub resolve_call : NodeTables → Resolution → Served
  resolve_call node resolution = resolve_kind node resolution resolution.kind

-- `maybe_response.into_iter().collect()`
abbrev pub collected : {A : Type 0} → Option A → List A
collected none = []
collected (some a) = a ∷ []

module _ (digest : List ℕ → Hash) (aead : Aead) (s : Signatures) (codecs : SeriesCodecs)
    (is_key : List ℕ → Bool) where
  -- The edition under the cipher of its key, with the nonce that is drawn.
  abbrev pub edition_response : Hash → Edition → EditionResponse
  edition_response rand latest = record {
    rand = rand;
    series =
        encrypt_opaque aead codecs.edition_codec (new_cipher (digest latest.public_key) rand)
          latest;
  }

  abbrev pub respond_latest : Hash → Option (List Edition) → Option EditionResponse
  respond_latest rand none = none
  respond_latest rand (some []) = none
  respond_latest rand (some (latest ∷ older)) =
      if latest.is_draft then none else some (edition_response rand latest)

  -- `listed` is what the table of editions has under the prefix of a series.
  abbrev pub respond_edition :
      Hash → (SeriesRef → List (List ℕ)) → Option SeriesRef → Option EditionResponse
  respond_edition rand listed none = none
  respond_edition rand listed (some series) =
      respond_latest rand (get_editions s codecs (listed series))

  -- `get_edition`
  unfoldable pub serve_edition :
      List (List ℕ × List ℕ) → (SeriesRef → List (List ℕ)) → Riddle → Hash → List EditionResponse
  serve_edition series listed key_riddle rand =
      collected
        (respond_edition rand listed (find_series digest is_key codecs.refs key_riddle series))

  -- The task of `announce_edition`: the edition with which the subscription is refreshed, if any.
  abbrev pub announced_to : EditionAnnouncement → Option SubscriptionRef → Option Edition
  announced_to announcement none = none
  announced_to announcement (some subscription) = do
    edition ←
        decrypt_with aead codecs.edition_codec announcement.edition
          (new_cipher (digest subscription.public_key) announcement.rand)
    if edition_is_valid s codecs edition && must_refresh then some edition else none

  -- `announce_edition`, of a node with a table of subscriptions.
  unfoldable pub serve_announcement :
      Codec SubscriptionRef → List (List ℕ × List ℕ) → EditionAnnouncement → Option Edition
  serve_announcement refs subscriptions announcement =
      announced_to announcement
        (find_subscription refs digest is_key announcement.key_riddle subscriptions)

-- `get_identity`
abbrev pub identity_response :
    Aead → Codec Identity → (List ℕ → Hash) → Hash → Identity → IdentityResponse
identity_response aead codec digest rand identity = record {
  rand = rand;
  identity = encrypt_opaque aead codec (new_cipher (digest identity.identity.handle) rand) identity;
}

abbrev pub serve_identity :
    Aead
    → Codec Identity
    → (List ℕ → Hash)
    → Bincode
    → List (List ℕ × List ℕ)
    → Riddle
    → Hash
    → List IdentityResponse
serve_identity aead codec digest bincode identities riddle rand = collected (do
  identity ← find_identity digest codec bincode riddle identities
  some (identity_response aead codec digest rand identity))

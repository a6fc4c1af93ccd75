-- ===== src/HubConnection.antt =====
-- node/src/system/mod.rs: `HubConnection` and `Hubs`, what a node asks its hubs. The answers of hubs, the
-- connections that come of their candidates and the order in which concurrent calls end are arguments.
pub mod Queries
pub mod Latest
use samizdat.Prelude.{
  ℕ, ltb, Bool, true, false, not, ◌&&◌, List, [], ◌∷◌, map, Option, none, some, if◌then◌else◌,
  ◌>>=◌,
}
use samizdat.Codec.{Codec}
use samizdat.Hash.{Hash, hash_eq}
use samizdat.Cipher.{Aead, new_cipher, decrypt_with}
use samizdat.Riddle.{new_with_nonce}
use samizdat.Bookmark.{Bincode}
use samizdat.Collection.Items.{CollectionItem}
use samizdat.Database.{Db}
use samizdat.Objects.Building.{ObjectCodecs, Clock, Ending, unfinished, panicked, refused, stored}
use samizdat.Transfer.{Brotli, MessageCodecs, recv_object}
use samizdat.Transfer.Items.{ItemMessage, recv_item}
use samizdat.Series.{Signatures, SeriesCodecs, Edition, SeriesRef, edition_is_valid}
use samizdat.Identity.{
  Identity, IdentityRef, ProofOfWork, identity_hash, identity_is_valid, work_done,
}
use samizdat.Rpc.{
  Query, QueryKind, object_kind, item_kind, QueryResponse, internal_error, replayed, empty_query,
  no_reverse_connection, resolved, EditionResponse, IdentityResponse,
}

-- The errors of `query`.
pub data QueryError : Type 0 where
  call_failed suspected_replay query_was_empty no_connection hub_error : QueryError
  all_candidates_failed timeout : QueryError

-- How a query ends, with the tables that it leaves.
pub data QueryOutcome : Type 0 where
  query_unfinished query_panicked : QueryOutcome
  query_failed : Db → QueryError → QueryOutcome
  query_found : Db → Hash → QueryOutcome

-- What `candidates.next()` yields before the stream ends: a channel to a peer with the messages that
-- come over it, or the deadline.
pub data Attempt : Type 0 where
  deadline : Attempt
  connected : Clock → List (List ℕ) → Attempt

module _ (digest : List ℕ → Hash) where
  -- The query that is sent, with the nonces that are drawn, one for each of `riddles_per_query`.
  abbrev pub query_for : Hash → QueryKind → List Hash → Hash → Query
  query_for content_hash kind nonces location_nonce = record {
    content_riddles = map (λ nonce. new_with_nonce digest content_hash nonce) nonces;
    location_riddle = new_with_nonce digest content_hash location_nonce;
    kind = kind;
  }

module _ (digest : List ℕ → Hash) (codecs : ObjectCodecs) (formats : MessageCodecs) (aead : Aead)
    (brotli : Brotli) (item_codec : Codec CollectionItem) (item_messages : Codec ItemMessage)
    (max_content_size : ℕ) (content_hash : Hash) where
  abbrev pub receive : QueryKind → Db → Clock → List (List ℕ) → Ending
  receive object_kind db clock messages =
      recv_object digest codecs formats aead brotli db max_content_size clock messages content_hash
  receive item_kind db clock messages =
      recv_item digest codecs formats aead brotli item_codec item_messages db max_content_size clock
        messages content_hash

  -- A candidate that fails is passed over, with what it left in the tables.
  abbrev pub next_attempt : Ending → (Db → QueryOutcome) → QueryOutcome
  next_attempt unfinished continue = query_unfinished
  next_attempt panicked continue = query_panicked
  next_attempt (refused db) continue = continue db
  next_attempt (stored db object) continue = query_found db object

  -- The loop over the candidates.
  unfoldable pub query_loop : QueryKind → List Attempt → Db → QueryOutcome
  query_loop kind [] db = query_failed db all_candidates_failed
  query_loop kind (deadline ∷ attempts) db = query_failed db timeout
  query_loop kind (connected clock messages ∷ attempts) db =
      next_attempt (receive kind db clock messages) (λ db'. query_loop kind attempts db')

  -- `HubConnection::query`: the hub's response to `query_for`, where a failing call is `none`, and what
  -- the candidates on a channel come to.
  unfoldable pub query_hub :
      QueryKind → (ℕ → ℕ → List Attempt) → Db → Option QueryResponse → QueryOutcome
  query_hub kind candidates db none = query_failed db call_failed
  query_hub kind candidates db (some replayed) = query_failed db suspected_replay
  query_hub kind candidates db (some empty_query) = query_failed db query_was_empty
  query_hub kind candidates db (some no_reverse_connection) = query_failed db no_connection
  query_hub kind candidates db (some internal_error) = query_failed db hub_error
  query_hub kind candidates db (some (resolved candidate_channel channel_id)) =
      query_loop kind (candidates candidate_channel channel_id) db

-- The loops of `Hubs::query` and `Hubs::get_latest` over the results in the order in which they come,
-- with errors as `none`: the first one that found something.
unfoldable pub first_found : {A : Type 0} → List (Option A) → Option A
first_found [] = none
first_found (none ∷ results) = first_found results
first_found (some found ∷ results) = some found

-- The better one, and of two that are equally good the first.
abbrev pub better_of : {A : Type 0} → (A → ℕ) → Option A → A → Option A
better_of rank none candidate = some candidate
better_of rank (some best) candidate =
    if ltb (rank best) (rank candidate) then some candidate else some best

module _ (digest : List ℕ → Hash) (aead : Aead) where
  module _ (s : Signatures) (codecs : SeriesCodecs) where
    abbrev pub edition_time : Edition → ℕ
    edition_time e = e.signed.content.timestamp

    abbrev pub decrypt_edition : SeriesRef → EditionResponse → Option Edition
    decrypt_edition series candidate =
        decrypt_with aead codecs.edition_codec candidate.series
          (new_cipher (digest series.public_key) candidate.rand)

    abbrev pub consider_edition : Option Edition → Edition → Option Edition
    consider_edition most_recent candidate =
        if edition_is_valid s codecs candidate
        then better_of edition_time most_recent candidate
        else most_recent

    -- The loop of `HubConnection::get_edition`; the outer `none` is the error of a candidate that
    -- cannot be decrypted.
    unfoldable pub pick_edition :
        SeriesRef → Option Edition → List EditionResponse → Option (Option Edition)
    pick_edition series most_recent [] = some most_recent
    pick_edition series most_recent (candidate ∷ candidates) = do
      edition ← decrypt_edition series candidate
      pick_edition series (consider_edition most_recent edition) candidates

    abbrev pub get_edition : SeriesRef → Option (List EditionResponse) → Option (Option Edition)
    get_edition series response = response >>= pick_edition series none

  module _ (codec : Codec Identity) (bincode : Bincode) (work : Hash → ℕ)
      (minimum_work_done : ℕ) where
    abbrev pub identity_work : Identity → ℕ
    identity_work i = work_done digest codec bincode work minimum_work_done i.proof

    abbrev pub decrypt_identity : IdentityRef → IdentityResponse → Option Identity
    decrypt_identity identity candidate =
        decrypt_with aead codec candidate.identity
          (new_cipher (identity_hash digest codec bincode identity) candidate.rand)

    abbrev pub consider_identity : IdentityRef → Option Identity → Identity → Option Identity
    consider_identity identity most_worked_on candidate =
        if identity_is_valid digest codec bincode work minimum_work_done candidate
          && hash_eq candidate.identity.handle identity.handle
        then better_of identity_work most_worked_on candidate
        else most_worked_on

    -- The loop of `HubConnection::get_identity`.
    unfoldable pub pick_identity :
        IdentityRef → Option Identity → List IdentityResponse → Option (Option Identity)
    pick_identity identity most_worked_on [] = some most_worked_on
    pick_identity identity most_worked_on (candidate ∷ candidates) = do
      found ← decrypt_identity identity candidate
      pick_identity identity (consider_identity identity most_worked_on found) candidates

    abbrev pub get_identity_at :
        IdentityRef → Option (List IdentityResponse) → Option (Option Identity)
    get_identity_at identity response = response >>= pick_identity identity none

    -- The loop of `Hubs::get_identity` over the results of the hubs, with errors as `none`.
    abbrev pub better_result : Option Identity → Option (Option Identity) → Option Identity
    better_result most_worked_on none = most_worked_on
    better_result most_worked_on (some none) = most_worked_on
    better_result most_worked_on (some (some found)) = better_of identity_work most_worked_on found

    unfoldable pub best_identity :
        Option Identity → List (Option (Option Identity)) → Option Identity
    best_identity most_worked_on [] = most_worked_on
    best_identity most_worked_on (result ∷ results) =
        best_identity (better_result most_worked_on result) results

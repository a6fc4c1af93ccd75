-- ===== src/Hub/Requests.antt =====
-- hub/src/rpc/hub_server.rs: `HubServer`, what a hub does for a node; hub/src/rpc/hub_as_node.rs:
-- `HubAsNodeServer`, what it does for a partner hub; hub/src/replay_resistance.rs: `Nonce`. Throttling only
-- delays a call. A spawned task, which forwards candidates, is part of the result.
pub mod Loops
use samizdat.Prelude.{ℕ, Bool, true, false, List, [], ◌∷◌, ◌++◌, Option, none, some, if◌then◌else◌}
use samizdat.Codec.{Codec}
use samizdat.Hash.{Hash}
use samizdat.Cipher.{Aead}
use samizdat.Riddle.{Message, Riddle, riddle_for}
use samizdat.Replay.{ReplayResistance, Faults, Verdict, ok, err, check}
use samizdat.Rpc.{
  SocketAddr, ChannelAddr, Query, QueryResponse, internal_error, replayed, empty_query,
  no_reverse_connection, resolved, EditionRequest, EditionResponse, EditionAnnouncement,
  IdentityRequest, IdentityResponse, Resolution, ResolutionResponse, redirect, empty_resolution,
  not_found,
}
use samizdat.Hub.Room.{Node, Room, get_participant, with_peers}

-- The two statics of the hub, `ROOM` and `REPLAY_RESISTANCE`.
pub record HubState : Type 0 where
  pub replay : ReplayResistance
  pub room : Room

-- `Nonce` for the five kinds of calls.
abbrev pub query_nonce : Query → Hash
query_nonce query = query.location_riddle.rand

abbrev pub resolution_nonce : Resolution → Hash
resolution_nonce resolution = resolution.location_message_riddle.rand

abbrev pub edition_nonce : EditionRequest → Hash
edition_nonce request = request.key_riddle.rand

abbrev pub announcement_nonce : EditionAnnouncement → Hash
announcement_nonce announcement = announcement.key_riddle.rand

abbrev pub identity_nonce : IdentityRequest → Hash
identity_nonce request = request.identity_riddle.rand

-- A task that sends all candidates for a resolution to a client, over a candidate channel.
pub record Forwarding : Type 0 where
  pub client_addr : SocketAddr
  pub resolution : Resolution
  pub candidate_channel : ℕ

-- The check that comes first in each call, and the state that it leaves.
abbrev pub verdict_of : HubState → ℕ → Hash → Faults → Verdict
verdict_of hub now nonce faults = (check hub.replay now nonce faults).1

abbrev pub after_check : HubState → ℕ → Hash → Faults → HubState
after_check hub now nonce faults = record hub { replay = (check hub.replay now nonce faults).0 }

module _ (digest : List ℕ → Hash) (aead : Aead) (addresses : Codec (Message ChannelAddr)) where
  -- The resolution of a query, which names the client's address and the channel that was drawn.
  abbrev pub resolution_of : SocketAddr → ℕ → Query → Resolution
  resolution_of client_addr channel_id query =
      let channel_addr : ChannelAddr = record {
        peer_addr = client_addr;
        channel_id = channel_id;
      } in
      record {
        content_riddles = query.content_riddles;
        location_message_riddle =
            riddle_for digest aead addresses query.location_riddle channel_addr;
        validation_nonces = [];
        kind = query.kind;
      }

  abbrev pub with_connection :
      SocketAddr → ℕ → ℕ → Query → Option Node → QueryResponse × Option Forwarding
  with_connection client_addr channel_id candidate_channel query none =
      (no_reverse_connection, none)
  with_connection client_addr channel_id candidate_channel query (some node) = (
    resolved candidate_channel channel_id,
    some (record {
      client_addr = client_addr;
      resolution = resolution_of client_addr channel_id query;
      candidate_channel = candidate_channel;
    }),
  )

  abbrev pub query_accepted :
      Room → SocketAddr → ℕ → ℕ → Query → List Riddle → QueryResponse × Option Forwarding
  query_accepted room client_addr channel_id candidate_channel query [] = (empty_query, none)
  query_accepted room client_addr channel_id candidate_channel query (riddle ∷ riddles) =
      with_connection client_addr channel_id candidate_channel query
        (get_participant room client_addr)

  abbrev pub query_checked :
      Room → SocketAddr → ℕ → ℕ → Query → Verdict → QueryResponse × Option Forwarding
  query_checked room client_addr channel_id candidate_channel query (ok false) = (replayed, none)
  query_checked room client_addr channel_id candidate_channel query err = (internal_error, none)
  query_checked room client_addr channel_id candidate_channel query (ok true) =
      query_accepted room client_addr channel_id candidate_channel query query.content_riddles

  -- `query`, with the two numbers that are drawn.
  unfoldable pub serve_query :
      HubState
      → ℕ
      → Faults
      → SocketAddr
      → ℕ
      → ℕ
      → Query
      → HubState × (QueryResponse × Option Forwarding)
  serve_query hub now faults client_addr channel_id candidate_channel query = (
    after_check hub now (query_nonce query) faults,
    query_checked hub.room client_addr channel_id candidate_channel query
        (verdict_of hub now (query_nonce query) faults),
  )

-- `resolve` of the hub as a node of its partner.
abbrev pub forward_to :
    SocketAddr → ℕ → Resolution → List Riddle → ResolutionResponse × Option Forwarding
forward_to partner candidate_channel resolution [] = (empty_resolution, none)
forward_to partner candidate_channel resolution (riddle ∷ riddles) = (
  redirect candidate_channel,
  some (record {
    client_addr = partner;
    resolution = resolution;
    candidate_channel = candidate_channel;
  }),
)

abbrev pub resolve_checked :
    SocketAddr → ℕ → Resolution → Verdict → ResolutionResponse × Option Forwarding
resolve_checked partner candidate_channel resolution (ok true) =
    forward_to partner candidate_channel resolution resolution.content_riddles
resolve_checked partner candidate_channel resolution (ok false) = (not_found, none)
resolve_checked partner candidate_channel resolution err = (not_found, none)

unfoldable pub serve_resolution :
    HubState
    → ℕ
    → Faults
    → SocketAddr
    → ℕ
    → Resolution
    → HubState × (ResolutionResponse × Option Forwarding)
serve_resolution hub now faults partner candidate_channel resolution = (
  after_check hub now (resolution_nonce resolution) faults,
  resolve_checked partner candidate_channel resolution
      (verdict_of hub now (resolution_nonce resolution) faults),
)

-- What peers return is kept if it is not empty; a failing call is `none`.
abbrev pub non_empty : {A : Type 0} → Option (List A) → Option (List A)
non_empty none = none
non_empty (some []) = none
non_empty (some (a ∷ rest)) = some (a ∷ rest)

abbrev pub flatten : {A : Type 0} → List (List A) → List A
flatten [] = []
flatten (list ∷ lists) = list ++ flatten lists

-- `edition_for_request` and `get_identity` of rpc/mod.rs.
abbrev pub responses_for :
    {A : Type 0}
    → ℕ
    → (List (Option (List A)) → List (Option (List A)))
    → Room
    → (SocketAddr × Node → ℕ)
    → SocketAddr
    → (SocketAddr × Node → Option (List A))
    → List A
responses_for max_candidates buffer_unordered room sampler client_addr call = flatten (
    with_peers max_candidates buffer_unordered room sampler client_addr
      (λ peer. non_empty (call peer)))

abbrev pub if_accepted : {A : Type 0} → Verdict → List A → List A
if_accepted (ok true) responses = responses
if_accepted (ok false) responses = []
if_accepted err responses = []

-- `get_edition` and `get_identity`, of both servers.
unfoldable pub serve_edition_request :
    HubState → ℕ → Faults → EditionRequest → List EditionResponse → HubState × List EditionResponse
serve_edition_request hub now faults request responses = (
  after_check hub now (edition_nonce request) faults,
  if_accepted (verdict_of hub now (edition_nonce request) faults) responses,
)

unfoldable pub serve_identity_request :
    HubState
    → ℕ
    → Faults
    → IdentityRequest
    → List IdentityResponse
    → HubState × List IdentityResponse
serve_identity_request hub now faults request responses = (
  after_check hub now (identity_nonce request) faults,
  if_accepted (verdict_of hub now (identity_nonce request) faults) responses,
)

-- `announce_edition` of rpc/mod.rs: the peers that took the announcement.
abbrev pub announced_peer :
    (SocketAddr × Node → Bool) → SocketAddr × Node → Option (SocketAddr × Node)
announced_peer call peer = if call peer then some peer else none

abbrev pub announce_to :
    ℕ
    → (List (Option (SocketAddr × Node)) → List (Option (SocketAddr × Node)))
    → Room
    → (SocketAddr × Node → ℕ)
    → SocketAddr
    → (SocketAddr × Node → Bool)
    → List (SocketAddr × Node)
announce_to max_candidates buffer_unordered room sampler client_addr call =
    with_peers max_candidates buffer_unordered room sampler client_addr (announced_peer call)

unfoldable pub serve_announcement_at :
    HubState
    → ℕ
    → Faults
    → EditionAnnouncement
    → List (SocketAddr × Node)
    → HubState × List (SocketAddr × Node)
serve_announcement_at hub now faults announcement taken = (
  after_check hub now (announcement_nonce announcement) faults,
  if_accepted (verdict_of hub now (announcement_nonce announcement) faults) taken,
)

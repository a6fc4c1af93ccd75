-- ===== src/Hub/Requests/Loops.antt =====
-- When a query is accepted, and that its resolution is refused when it comes back.
use samizdat.Prelude.{ℕ, ◌+◌, ◌≡◌, ◌≢◌, refl, ◌↔◌, true, false, List, [], ◌∷◌, Option, none, some}
use samizdat.Codec.{Codec}
use samizdat.Hash.{Hash}
use samizdat.Cipher.{Aead}
use samizdat.Riddle.{Message, Riddle, riddle_for}
use samizdat.Replay.{Faults, Verdict, ok, err}
use samizdat.Replay.Window.{Event, run, CleanedUntil, check-once}
use samizdat.Rpc.{SocketAddr, ChannelAddr, Query, resolved, Resolution, not_found}
use samizdat.Hub.Room.{Node, Room, get_participant}
use samizdat.Hub.Requests.{
  HubState, query_nonce, verdict_of, resolution_of, with_connection, query_accepted, query_checked,
  serve_query, serve_resolution, resolve_checked,
}

refused_verdict :
    (partner : SocketAddr) (channel : ℕ) (resolution : Resolution) (v : Verdict)
    → v ≢ ok true
    → resolve_checked partner channel resolution v ≡ (not_found, none)
refused_verdict partner channel resolution (ok true) h = absurd (h refl)
refused_verdict partner channel resolution (ok false) h = refl
refused_verdict partner channel resolution err h = refl

module _ (digest : List ℕ → Hash) (aead : Aead) (addresses : Codec (Message ChannelAddr)) where
  module _ (room : Room) (client_addr : SocketAddr) (channel_id candidate_channel : ℕ)
      (query : Query) where
    -- What an accepted query has.
    abbrev pub Accepted : Verdict → Type 0
    Accepted v =
        (v ≡ ok true)
        × (riddle : Riddle) × (riddles : List Riddle) × (node : Node) × (query.content_riddles
            ≡ riddle ∷ riddles)
        × (get_participant room client_addr ≡ some node)

    connected :
        (m : Option Node)
        → (with_connection digest aead addresses client_addr channel_id candidate_channel query m).0
          ≡ resolved candidate_channel channel_id
        → (node : Node) × (m ≡ some node)
    connected none h = absurd (cc h)
    connected (some node) h = (node, refl)

    listed :
        (riddles : List Riddle)
        → query.content_riddles ≡ riddles
        → (query_accepted digest aead addresses room client_addr channel_id candidate_channel query
            riddles).0
          ≡ resolved candidate_channel channel_id
        → Accepted (ok true)
    listed [] e h = absurd (cc h)
    listed (riddle ∷ riddles) e h =
        let (node, found) = connected (get_participant room client_addr) h in
        (refl, riddle, riddles, node, e, found)

    accepted :
        (v : Verdict)
        → (query_checked digest aead addresses room client_addr channel_id candidate_channel query
            v).0
          ≡ resolved candidate_channel channel_id
        → Accepted v
    accepted (ok true) h = listed query.content_riddles refl h
    accepted (ok false) h = absurd (cc h)
    accepted err h = absurd (cc h)

    resolved_of :
        (v : Verdict)
        → Accepted v
        → (query_checked digest aead addresses room client_addr channel_id candidate_channel query
            v).0
          ≡ resolved candidate_channel channel_id
    resolved_of v (is_ok, riddle, riddles, node, e, found) = rw (is_ok, e, found) refl

  module _ (hub : HubState) (now : ℕ) (faults : Faults) (client_addr : SocketAddr)
      (channel_id candidate_channel : ℕ) (query : Query) where
    -- A hub resolves a query if and only if the replay check accepts its nonce, it has a riddle, and
    -- the client has a reverse connection to the hub.
    pub serve_query_iff :
        ((serve_query digest aead addresses hub now faults client_addr channel_id candidate_channel
            query).1.0
          ≡ resolved candidate_channel channel_id)
        ↔ Accepted hub.room client_addr channel_id candidate_channel query
            (verdict_of hub now (query_nonce query) faults)
    unfolding serve_query
    serve_query_iff = (
      accepted hub.room client_addr channel_id candidate_channel query
          (verdict_of hub now (query_nonce query) faults),
      resolved_of hub.room client_addr channel_id candidate_channel query
          (verdict_of hub now (query_nonce query) faults),
    )

    -- After a hub has resolved a query, a resolution that still carries the query's location is refused
    -- when it comes back to the hub from a partner, and nothing is forwarded for it, until a clean-up of
    -- the nonces has run later than 1200 seconds after the query; other calls, clean-ups and database
    -- errors may come in between, and nodes may come and go.
    pub serve_resolution-loop :
        (events : List Event) (room : Room) (later : ℕ) (faults' : Faults) (partner : SocketAddr)
        (channel : ℕ) (resolution : Resolution)
        → (serve_query digest aead addresses hub now faults client_addr channel_id candidate_channel
            query).1.0
          ≡ resolved candidate_channel channel_id
        → resolution.location_message_riddle
          ≡ (resolution_of digest aead addresses client_addr channel_id
              query).location_message_riddle
        → CleanedUntil (now + 1200) events
        → let (hub', answer) =
            serve_query digest aead addresses hub now faults client_addr channel_id
              candidate_channel query in
          (serve_resolution
            (record { replay = run hub'.replay events; room = room })
            later
            faults'
            partner
            channel
            resolution).1
          ≡ (not_found, none)
    unfolding serve_query serve_resolution riddle_for
    serve_resolution-loop events room later faults' partner channel resolution answered same
          window =
        refused_verdict partner channel resolution _ (
          rw same (
            check-once hub.replay now later (query_nonce query) faults faults' events
              (accepted hub.room client_addr channel_id candidate_channel query
                (verdict_of hub now (query_nonce query) faults) answered).0
              window))

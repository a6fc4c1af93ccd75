-- ===== src/Examples/Hubs.antt =====
-- A hub with three nodes, the candidates that it accepts, and a resolution that comes back.
use samizdat.Prelude.{ℕ, ◌≤◌, ◌≡◌, ◌↔◌, refl, List, [], ◌∷◌, Option, none, some, arith, length}
use samizdat.Hash.{hash_eq}
use samizdat.Codec.{Codec}
use samizdat.Riddle.{Message, Riddle, new_with_nonce, riddle_for}
use samizdat.Replay.{check}
use samizdat.Replay.Window.{run}
use samizdat.Rpc.{
  v4, ip_eq, SocketAddr, ChannelAddr, object_kind, Query, Resolution, Candidate, ResolutionResponse,
  found, not_found,
}
use samizdat.Hub.Sampler.Order.{Descending}
use samizdat.Hub.Room.{Node, Room, new_node, get_participant, stream_peers, keep_peers}
use samizdat.Hub.Sampler.{push_entry, push_all}
use samizdat.Hub.Room.Peers.{Every, Among, MayAsk, stream_peers-Descending}
use samizdat.Hub.Resolving.{candidates_for_resolution}
use samizdat.Hub.Room.Outcomes.{OnlyOutcomes}
use samizdat.Hub.Resolving.Candidates.{IsStream, candidates_for_resolution-IsAccepted}
use samizdat.Hub.Requests.{HubState, serve_query, serve_resolution}
use samizdat.Hub.Requests.Loops.{serve_resolution-loop}
use samizdat.Examples.{key_of, toy}
use samizdat.Examples.Riddles.{tagged}
use samizdat.Examples.Nonces.{fine, start, between}

abbrev at : ℕ → SocketAddr
at host = record { ip = v4 host; port = 4510 }

abbrev entry : ℕ → SocketAddr × Node
entry host = (at host, new_node (at host) host)

abbrev pub room : Room
room = entry 1 ∷ entry 2 ∷ entry 3 ∷ []

abbrev priority : SocketAddr × Node → ℕ
priority (addr, node) = node.client

stream_peers-Descending_example :
    (Among (entry 2) (stream_peers priority room (at 2))
      ↔ (Among (entry 2) room × MayAsk (at 2) (entry 2)))
    × Descending priority (stream_peers priority room (at 2))
stream_peers-Descending_example = stream_peers-Descending priority (at 2) room (entry 2)

-- The client itself is left out.
two_left : stream_peers priority room (at 2) ≡ entry 3 ∷ entry 1 ∷ []
unfolding keep_peers push_all push_entry ip_eq
two_left = refl

abbrev riddle_at : ℕ → Riddle
riddle_at nonce = new_with_nonce toy (key_of 1) (key_of nonce)

abbrev resolution : Resolution
resolution = record {
  content_riddles = riddle_at 5 ∷ riddle_at 6 ∷ [];
  validation_nonces = key_of 7 ∷ [];
  location_message_riddle = record { rand = key_of 8; masked = [] };
  kind = object_kind;
}

abbrev call : SocketAddr × Node → Resolution → Option ResolutionResponse
call (addr, node) r = some (found (riddle_at 7 ∷ riddle_at 6 ∷ []))

abbrev no_stream : ℕ → List Candidate
no_stream channel = []

-- The calls end in the order in which they were made.
abbrev in_order : List (Option (List Candidate)) → List (Option (List Candidate))
in_order outcomes = outcomes

in_order-OnlyOutcomes : OnlyOutcomes in_order
in_order-OnlyOutcomes = record { only = λ P outcomes h. h }

candidates_for_resolution-IsAccepted_example :
    (streams : List (List Candidate)) × (candidates_for_resolution 3 in_order room priority
        no_stream call
        (at 2)
        resolution
      ≡ some streams)
    × (length streams ≤ 3)
    × Every
        (IsStream room no_stream call (at 2) resolution (riddle_at 5 ∷ []) (riddle_at 6))
        streams
candidates_for_resolution-IsAccepted_example =
    candidates_for_resolution-IsAccepted 3 in_order room priority no_stream call (at 2) resolution
      (riddle_at 5 ∷ []) (riddle_at 6) in_order-OnlyOutcomes refl

abbrev query : Query
query = record {
  content_riddles = riddle_at 5 ∷ riddle_at 6 ∷ [];
  location_riddle = riddle_at 9;
  kind = object_kind;
}

abbrev unread : Codec (Message ChannelAddr)
unread = record { serialize = λ m. m.payload.channel_id ∷ []; deserialize = λ bytes. none }

abbrev hub : HubState
hub = record { replay = start; room = room }

abbrev returned : Resolution
returned = record {
  content_riddles = riddle_at 5 ∷ [];
  validation_nonces = key_of 6 ∷ [];
  location_message_riddle =
      riddle_for toy tagged unread (riddle_at 9) (record { peer_addr = at 2; channel_id = 77 });
  kind = object_kind;
}

serve_resolution-loop_example :
    let (hub', answer) = serve_query toy tagged unread hub 1000 fine (at 2) 77 78 query in
    (serve_resolution
      (record { replay = run hub'.replay between; room = [] })
      2201
      fine
      (at 3)
      79
      returned).1
    ≡ (not_found, none)
unfolding serve_query check get_participant ip_eq hash_eq
serve_resolution-loop_example =
    serve_resolution-loop toy tagged unread hub 1000 fine (at 2) 77 78 query between [] 2201 fine
      (at 3) 79 returned refl refl (omega arith, tt)

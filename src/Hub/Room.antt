-- ===== src/Hub/Room.antt =====
-- hub/src/rpc/room.rs: `Room`, the nodes that are connected to a hub; `Node` of hub/src/rpc/mod.rs.
pub mod Outcomes
pub mod Peers
use samizdat.Prelude.{
  ℕ, ◌==◌, ◌&&◌, ◌||◌, not, Bool, true, false, List, [], ◌∷◌, Option, none, some, take, map,
  if◌then◌else◌,
}
use samizdat.Rpc.{IpAddr, SocketAddr, ip_eq, is_ipv6, is_loopback, addr_eq}
use samizdat.Hub.Sampler.{Statistics, default_statistics, sample}

-- The client, a connection, is a number.
pub record Node : Type 0 where
  pub query_statistics : Statistics
  pub edition_statistics : Statistics
  pub client : ℕ
  pub addr : SocketAddr

abbrev pub new_node : SocketAddr → ℕ → Node
new_node addr client = record {
  query_statistics = default_statistics;
  edition_statistics = default_statistics;
  client = client;
  addr = addr;
}

-- The map `participants`, as the list of its entries.
abbrev pub Room : Type 0
Room = List (SocketAddr × Node)

unfoldable pub insert_participant : Room → SocketAddr → Node → Room
insert_participant [] addr participant = (addr, participant) ∷ []
insert_participant ((other, node) ∷ room) addr participant =
    let rest = insert_participant room addr participant in
    if addr_eq other addr then (addr, participant) ∷ room else (other, node) ∷ rest

unfoldable pub remove_participant : Room → SocketAddr → Room
remove_participant [] addr = []
remove_participant ((other, node) ∷ room) addr =
    let rest = remove_participant room addr in
    if addr_eq other addr then rest else (other, node) ∷ rest

unfoldable pub get_participant : Room → SocketAddr → Option Node
get_participant [] addr = none
get_participant ((other, node) ∷ room) addr =
    let rest = get_participant room addr in if addr_eq other addr then some node else rest

abbrev pub bool_eq : Bool → Bool → Bool
bool_eq true b = b
bool_eq false b = not b

-- The test of the filter of `stream_peers`.
abbrev pub is_included : SocketAddr → SocketAddr × Node → Bool
is_included current (peer_id, peer) =
    (not (ip_eq peer.addr.ip current.ip)
      || (is_loopback current.ip && not (peer.addr.port == current.port)))
    && bool_eq (is_ipv6 peer.addr.ip) (is_ipv6 current.ip)

unfoldable pub keep_peers : SocketAddr → Room → Room
keep_peers current [] = []
keep_peers current (peer ∷ peers) =
    let rest = keep_peers current peers in if is_included current peer then peer ∷ rest else rest

abbrev pub stream_peers : (SocketAddr × Node → ℕ) → Room → SocketAddr → Room
stream_peers priority room current = keep_peers current (sample priority room)

abbrev pub keep_some : {U : Type 0} → Option U → List U → List U
keep_some none rest = rest
keep_some (some u) rest = u ∷ rest

unfoldable pub filter_map : {A U : Type 0} → (A → Option U) → List A → List U
filter_map f [] = []
filter_map f (x ∷ xs) = keep_some (f x) (filter_map f xs)

-- `with_peers`: the outcomes of `map` for the peers that are streamed, in the order in which
-- `buffer_unordered` is done with them.
abbrev pub with_peers :
    {U : Type 0}
    → ℕ
    → (List (Option U) → List (Option U))
    → Room
    → (SocketAddr × Node → ℕ)
    → SocketAddr
    → (SocketAddr × Node → Option U)
    → List U
with_peers max_candidates buffer_unordered room sampler current f =
    take max_candidates (
      filter_map (λ outcome. outcome)
        (buffer_unordered (map f (stream_peers sampler room current))))

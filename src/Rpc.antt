-- ===== src/Rpc.antt =====
-- common/src/rpc.rs: what nodes and hubs say to each other; common/src/channel_address.rs: `ChannelAddr`;
-- the addresses of `std::net`.
use samizdat.Prelude.{ℕ, ◌/◌, ◌^◌, ◌==◌, ◌&&◌, Bool, true, false, List}
use samizdat.Hash.{Hash}
use samizdat.Riddle.{Riddle, MessageRiddle}

-- `IpAddr`: the bits of an address, as one number.
pub data IpAddr : Type 0 where
  v4 v6 : ℕ → IpAddr

unfoldable pub ip_eq : IpAddr → IpAddr → Bool
ip_eq (v4 a) (v4 b) = a == b
ip_eq (v6 a) (v6 b) = a == b
ip_eq (v4 a) (v6 b) = false
ip_eq (v6 a) (v4 b) = false

abbrev pub is_ipv6 : IpAddr → Bool
is_ipv6 (v4 a) = false
is_ipv6 (v6 a) = true

-- 127.0.0.0/8 and ::1.
abbrev pub is_loopback : IpAddr → Bool
is_loopback (v4 a) = a / 2 ^ 24 == 127
is_loopback (v6 a) = a == 1

pub record SocketAddr : Type 0 where
  pub ip : IpAddr
  pub port : ℕ

abbrev pub addr_eq : SocketAddr → SocketAddr → Bool
addr_eq a b = ip_eq a.ip b.ip && a.port == b.port

pub record ChannelAddr : Type 0 where
  pub peer_addr : SocketAddr
  pub channel_id : ℕ

pub data QueryKind : Type 0 where
  object_kind item_kind : QueryKind

pub record Query : Type 0 where
  pub content_riddles : List Riddle
  pub location_riddle : Riddle
  pub kind : QueryKind

pub data QueryResponse : Type 0 where
  internal_error replayed empty_query no_reverse_connection : QueryResponse
  resolved : (candidate_channel channel_id : ℕ) → QueryResponse

pub record EditionRequest : Type 0 where
  pub key_riddle : Riddle

pub record EditionResponse : Type 0 where
  pub series : List ℕ
  pub rand : Hash

pub record EditionAnnouncement : Type 0 where
  pub key_riddle : Riddle
  pub edition : List ℕ
  pub rand : Hash

pub record IdentityRequest : Type 0 where
  pub identity_riddle : Riddle

pub record IdentityResponse : Type 0 where
  pub identity : List ℕ
  pub rand : Hash

pub record Resolution : Type 0 where
  pub content_riddles : List Riddle
  pub validation_nonces : List Hash
  pub location_message_riddle : MessageRiddle
  pub kind : QueryKind

pub record Candidate : Type 0 where
  pub socket_addr : SocketAddr
  pub validation_riddles : List Riddle

pub data ResolutionResponse : Type 0 where
  found : List Riddle → ResolutionResponse
  redirect : ℕ → ResolutionResponse
  empty_resolution not_found : ResolutionResponse

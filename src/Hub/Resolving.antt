-- ===== src/Hub/Resolving.antt =====
-- hub/src/rpc/mod.rs: `candidates_for_resolution`, the candidates that a hub finds for a resolution. The
-- answers of the peers to their remote calls and what a candidate channel yields until it is dropped
-- are arguments; a panic is `none`.
pub mod Riddles
pub mod Candidates
pub mod Chain
use samizdat.Prelude.{
  ℕ, ◌-◌, ◌&&◌, Bool, true, false, List, [], ◌∷◌, ◌++◌, Option, none, some, length, get_elem?, leb,
  ◌>>=◌, if◌then◌else◌,
}
use samizdat.Hash.{Hash, hash_eq}
use samizdat.Riddle.{Riddle}
use samizdat.Rpc.{
  SocketAddr, Resolution, Candidate, ResolutionResponse, found, redirect, empty_resolution,
  not_found, is_ipv6,
}
use samizdat.Hub.Sampler.{Statistics, start_experiment, end_with_success}
use samizdat.Hub.Room.{Node, Room, bool_eq, with_peers}

-- `Vec::pop`, with what is left.
unfoldable pub pop_last : {A : Type 0} → List A → Option (A × List A)
pop_last [] = none
pop_last (a ∷ rest) = after a (pop_last rest)
  where
    after : {A : Type 0} → A → Option (A × List A) → Option (A × List A)
    after a none = some (a, [])
    after a (some (last, rest)) = some (last, a ∷ rest)

-- "Go one step down with the resolution".
abbrev pub step_down : Resolution → Option (Riddle × Resolution)
step_down resolution = do
  (validation_riddle, content_riddles) ← pop_last resolution.content_riddles
  some (
    validation_riddle,
    record resolution {
      content_riddles = content_riddles;
      validation_nonces = resolution.validation_nonces ++ validation_riddle.rand ∷ [];
    },
  )

-- The derived `==`.
abbrev pub riddle_eq : Riddle → Riddle → Bool
riddle_eq a b = hash_eq a.rand b.rand && hash_eq a.hash b.hash

unfoldable pub nonces_match : List Riddle → List Hash → Bool
nonces_match [] nonces = true
nonces_match (riddle ∷ riddles) [] = true
nonces_match (riddle ∷ riddles) (nonce ∷ nonces) =
    hash_eq riddle.rand nonce && nonces_match riddles nonces

abbrev pub is_riddle : Riddle → Option Riddle → Bool
is_riddle riddle none = false
is_riddle riddle (some other) = riddle_eq other riddle

-- The closure `validate_riddles`. The index is below the length when the first test has passed.
unfoldable pub validate_riddles : Riddle → List Hash → List Riddle → Bool
validate_riddles validation_riddle validation_nonces riddles =
    leb (length validation_nonces) (length riddles)
    && is_riddle validation_riddle (get_elem? riddles (length validation_nonces - 1))
    && nonces_match riddles validation_nonces

module _ (client_addr : SocketAddr) (validation_riddle : Riddle) (resolution : Resolution) where
  -- The filter of redirected candidates.
  abbrev pub is_valid_redirect : Candidate → Bool
  is_valid_redirect candidate =
      validate_riddles validation_riddle resolution.validation_nonces candidate.validation_riddles
      && bool_eq (is_ipv6 candidate.socket_addr.ip) (is_ipv6 client_addr.ip)

  unfoldable pub keep_valid : List Candidate → List Candidate
  keep_valid [] = []
  keep_valid (candidate ∷ candidates) =
      let rest = keep_valid candidates in
      if is_valid_redirect candidate then candidate ∷ rest else rest

  -- What comes of a peer: the stream of its candidates, if it is kept. A failing call is `none`.
  unfoldable pub answer_of :
      (ℕ → List Candidate) → SocketAddr × Node → Option ResolutionResponse → Option (List Candidate)
  answer_of recv_stream peer none = none
  answer_of recv_stream (peer_id, peer) (some (found riddles)) =
      if validate_riddles validation_riddle resolution.validation_nonces riddles
      then some (record { socket_addr = peer.addr; validation_riddles = riddles } ∷ [])
      else none
  answer_of recv_stream peer (some (redirect candidate_channel)) =
      some (keep_valid (recv_stream candidate_channel))
  answer_of recv_stream peer (some empty_resolution) = none
  answer_of recv_stream peer (some not_found) = none

-- The experiment of a call: it ends with success at the peer's first valid candidate.
abbrev pub end_experiment : Statistics → ℕ → Option (List Candidate) → Statistics
end_experiment statistics latency none = statistics
end_experiment statistics latency (some []) = statistics
end_experiment statistics latency (some (candidate ∷ candidates)) =
    end_with_success statistics latency

abbrev pub observe : Node → ℕ → Option (List Candidate) → Node
observe peer latency answer = record peer {
  query_statistics = end_experiment (start_experiment peer.query_statistics) latency answer;
}

-- `candidates_for_resolution`: the streams that `flatten_unordered` mixes.
abbrev pub candidates_for_resolution :
    ℕ
    → (List (Option (List Candidate)) → List (Option (List Candidate)))
    → Room
    → (SocketAddr × Node → ℕ)
    → (ℕ → List Candidate)
    → (SocketAddr × Node → Resolution → Option ResolutionResponse)
    → SocketAddr
    → Resolution
    → Option (List (List Candidate))
candidates_for_resolution max_candidates buffer_unordered room sampler recv_stream call client_addr
      resolution =
    do
      (validation_riddle, below) ← step_down resolution
      some (
          with_peers max_candidates buffer_unordered room sampler client_addr (λ peer.
            answer_of client_addr validation_riddle below recv_stream peer (call peer below)))

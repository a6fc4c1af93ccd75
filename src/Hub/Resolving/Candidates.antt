-- ===== src/Hub/Resolving/Candidates.antt =====
-- Which candidates a hub passes on, and how many streams of them.
use samizdat.Prelude.{
  ℕ, zero, suc, ◌≤◌, ◌≡◌, refl, inl, inr, sym, ◌∙◌, ap, arith, Bool, true, false, Bool-cases,
  and_left, and_right, List, [], ◌∷◌, ◌++◌, Option, none, some, length, take,
}
use samizdat.Hash.{Hash}
use samizdat.Riddle.{Riddle}
use samizdat.Rpc.{
  SocketAddr, Resolution, Candidate, ResolutionResponse, found, redirect, empty_resolution,
  not_found, is_ipv6,
}
use samizdat.Hub.Room.{Node, Room, bool_eq, with_peers}
use samizdat.Hub.Room.Peers.{Every, Among, MayAsk}
use samizdat.Hub.Room.Outcomes.{Holds, OnlyOutcomes, with_peers-Every}
use samizdat.Hub.Resolving.{
  pop_last, validate_riddles, is_valid_redirect, keep_valid, answer_of, candidates_for_resolution,
}
use samizdat.Hub.Resolving.Riddles.{Answers, validate_riddles_iff}

pub length-take_le : {A : Type 0} (n : ℕ) (list : List A) → length (take n list) ≤ n
length-take_le zero list = omega arith
length-take_le (suc n) [] = omega arith
length-take_le (suc n) (a ∷ list) = omega (arith, length-take_le n list)

pub pop_last-snoc :
    {A : Type 0} (above : List A) (a : A) → pop_last (above ++ a ∷ []) ≡ some (a, above)
unfolding pop_last
pop_last-snoc [] a = refl
pop_last-snoc (b ∷ above) a = rw (pop_last-snoc above a) refl

bool_eq-eq : (a b : Bool) → bool_eq a b ≡ true → a ≡ b
bool_eq-eq true true h = refl
bool_eq-eq true false h = cc
bool_eq-eq false true h = cc
bool_eq-eq false false h = refl

-- A candidate that a hub may pass on to the client.
abbrev pub IsAccepted : SocketAddr → Riddle → List Hash → Candidate → Type 0
IsAccepted client_addr riddle nonces candidate =
    Answers riddle nonces candidate.validation_riddles
    × (is_ipv6 candidate.socket_addr.ip ≡ is_ipv6 client_addr.ip)

module _ (client_addr : SocketAddr) (riddle : Riddle) (nonces : List Hash)
    (below : Resolution) where
  abbrev Accepted : Candidate → Type 0
  Accepted = IsAccepted client_addr riddle nonces

  keep_valid-Accepted :
      (candidates : List Candidate)
      → below.validation_nonces ≡ nonces ++ riddle.rand ∷ []
      → Every Accepted (keep_valid client_addr riddle below candidates)
  unfolding keep_valid
  keep_valid-Accepted [] same = tt
  keep_valid-Accepted (candidate ∷ candidates) same =
      elim (Bool-cases (is_valid_redirect client_addr riddle below candidate)) [
        | inl h ↦ rw h (
          (
            (validate_riddles_iff riddle nonces candidate.validation_riddles).0 (
                ap (λ n. validate_riddles riddle n candidate.validation_riddles) (sym same)
                ∙ and_left _ _ h),
            bool_eq-eq _ _ (and_right _ _ h),
          ),
          keep_valid-Accepted candidates same,
        )
        | inr h ↦ rw h (keep_valid-Accepted candidates same)
      ]

  answer_of-Accepted :
      (recv_stream : ℕ → List Candidate) (peer : SocketAddr × Node)
      (answer : Option ResolutionResponse)
      → below.validation_nonces ≡ nonces ++ riddle.rand ∷ []
      → MayAsk client_addr peer
      → Holds
          (λ stream. Every Accepted stream)
          (answer_of client_addr riddle below recv_stream peer answer)
  unfolding answer_of
  answer_of-Accepted recv_stream peer none same included = tt
  answer_of-Accepted recv_stream (peer_id, peer) (some (found riddles)) same included =
      elim (Bool-cases (validate_riddles riddle below.validation_nonces riddles)) [
        | inl h ↦ rw h (
          (
            (validate_riddles_iff riddle nonces riddles).0
                (ap (λ n. validate_riddles riddle n riddles) (sym same) ∙ h),
            included.1,
          ),
          tt,
        )
        | inr h ↦ rw h tt
      ]
  answer_of-Accepted recv_stream peer (some (redirect candidate_channel)) same included =
      keep_valid-Accepted (recv_stream candidate_channel) same
  answer_of-Accepted recv_stream peer (some empty_resolution) same included = tt
  answer_of-Accepted recv_stream peer (some not_found) same included = tt

-- The resolution that is passed on when a riddle was taken from one.
abbrev pub passed_on : Resolution → List Riddle → Riddle → Resolution
passed_on resolution above riddle = record resolution {
  content_riddles = above;
  validation_nonces = resolution.validation_nonces ++ riddle.rand ∷ [];
}

-- A stream of candidates that a hub may pass on: it was made of the answer of a node of the room that
-- may be asked for the client, to the resolution with the riddle taken, and all its candidates are
-- accepted.
abbrev pub IsStream :
    Room
    → (ℕ → List Candidate)
    → (SocketAddr × Node → Resolution → Option ResolutionResponse)
    → SocketAddr
    → Resolution
    → List Riddle
    → Riddle
    → List Candidate
    → Type 0
IsStream room recv_stream call client_addr resolution above riddle stream =
    (peer : SocketAddr × Node) × Among peer room
    × MayAsk client_addr peer
    × (answer_of client_addr riddle (passed_on resolution above riddle) recv_stream peer
          (call peer (passed_on resolution above riddle))
        ≡ some stream)
    × Every (IsAccepted client_addr riddle resolution.validation_nonces) stream

known_stream :
    (room : Room) (recv_stream : ℕ → List Candidate)
    (call : SocketAddr × Node → Resolution → Option ResolutionResponse) (client_addr : SocketAddr)
    (resolution : Resolution) (above : List Riddle) (riddle : Riddle) (peer : SocketAddr × Node)
    (o : Option (List Candidate))
    → Among peer room
    → MayAsk client_addr peer
    → answer_of client_addr riddle
        (passed_on resolution above riddle)
        recv_stream
        peer
        (call peer (passed_on resolution above riddle))
      ≡ o
    → Holds (λ stream. Every (IsAccepted client_addr riddle resolution.validation_nonces) stream) o
    → Holds (IsStream room recv_stream call client_addr resolution above riddle) o
known_stream room recv_stream call client_addr resolution above riddle peer none inside may e h = tt
known_stream room recv_stream call client_addr resolution above riddle peer (some stream) inside may
      e h =
    (peer, inside, may, e, h)

-- For a resolution with a riddle to take, whatever the peers answer and whatever comes in on candidate
-- channels, a hub yields at most `max_candidates` streams. Each of them is made of the answer of a node
-- of the room that is at another host than the client, or on its loopback host at another port, and
-- has the client's version of IP; and every candidate in them shows the riddle that was taken and
-- riddles for all the nonces before it, and has the client's version of IP. What `buffer_unordered`
-- yields are outcomes of the calls.
pub candidates_for_resolution-IsAccepted :
    (max_candidates : ℕ)
    (buffer_unordered : List (Option (List Candidate)) → List (Option (List Candidate)))
    (room : Room) (sampler : SocketAddr × Node → ℕ) (recv_stream : ℕ → List Candidate)
    (call : SocketAddr × Node → Resolution → Option ResolutionResponse) (client_addr : SocketAddr)
    (resolution : Resolution) (above : List Riddle) (riddle : Riddle)
    → OnlyOutcomes buffer_unordered
    → resolution.content_riddles ≡ above ++ riddle ∷ []
    → (streams : List (List Candidate)) × (candidates_for_resolution max_candidates buffer_unordered
          room sampler recv_stream call client_addr resolution
        ≡ some streams)
      × (length streams ≤ max_candidates)
      × Every (IsStream room recv_stream call client_addr resolution above riddle) streams
candidates_for_resolution-IsAccepted max buffer_unordered room sampler recv_stream call client_addr
      resolution above riddle yields e =
    let below = passed_on resolution above riddle in
    let answer = λ (peer : SocketAddr × Node).
      answer_of client_addr riddle below recv_stream peer (call peer below) in
    (
      with_peers max buffer_unordered room sampler client_addr answer,
      rw (e, pop_last-snoc above riddle) refl,
      length-take_le max _,
      with_peers-Every (IsStream room recv_stream call client_addr resolution above riddle) max
          buffer_unordered room sampler client_addr answer yields
          (λ peer inside may.
            known_stream room recv_stream call client_addr resolution above riddle peer
              (answer peer) inside may refl
              (answer_of-Accepted client_addr riddle resolution.validation_nonces below recv_stream
                peer (call peer below) refl may)),
    )

-- ===== src/Hub/Room/Outcomes.antt =====
-- What comes of the calls that `with_peers` makes.
use samizdat.Prelude.{ℕ, zero, suc, List, [], ◌∷◌, Option, none, some, map, take}
use samizdat.Rpc.{SocketAddr}
use samizdat.Hub.Room.{Node, Room, stream_peers, keep_some, filter_map, with_peers}
use samizdat.Hub.Room.Peers.{Every, Among, MayAsk, Every-Among, stream_peers_mem}

Every-take :
    {A : Type 0} (P : A → Type 0) (n : ℕ) (list : List A) → Every P list → Every P (take n list)
Every-take P zero list h = tt
Every-take P (suc n) [] h = tt
Every-take P (suc n) (a ∷ list) h = (h.0, Every-take P n list h.1)

-- What holds of every value of an option.
abbrev pub Holds : {A : Type 0} → (A → Type 0) → Option A → Type 0
Holds P none = Unit
Holds P (some a) = P a

keep_some-Every :
    {U : Type 0} (Q : U → Type 0) (m : Option U) (list : List U)
    → Holds Q m
    → Every Q list
    → Every Q (keep_some m list)
keep_some-Every Q none list h rest = rest
keep_some-Every Q (some u) list h rest = (h, rest)

filter_map-Every :
    {A U : Type 0} (P : A → Type 0) (Q : U → Type 0) (f : A → Option U) (list : List A)
    → ((a : A) → P a → Holds Q (f a))
    → Every P list
    → Every Q (filter_map f list)
unfolding filter_map
filter_map-Every P Q f [] step h = tt
filter_map-Every P Q f (a ∷ list) step h =
    keep_some-Every Q (f a) _ (step a h.0) (filter_map-Every P Q f list step h.1)

-- `buffer_unordered` yields the outcomes of the calls that it is given, in some order, and no others:
-- what holds of all outcomes holds of all that it yields.
pub record OnlyOutcomes {U : Type 0} (buffer_unordered : List (Option U) → List (Option U))
    : Type 1 where
  pub only :
      (P : Option U → Type 0) (outcomes : List (Option U))
      → Every P outcomes
      → Every P (buffer_unordered outcomes)

Every-map :
    {A B : Type 0} (P : B → Type 0) (f : A → B) (list : List A)
    → Every (λ a. P (f a)) list
    → Every P (map f list)
Every-map P f [] h = tt
Every-map P f (a ∷ list) h = (h.0, Every-map P f list h.1)

pub with_peers-Every :
    {U : Type 0} (Q : U → Type 0) (max : ℕ) (buffer_unordered : List (Option U) → List (Option U))
    (room : Room) (sampler : SocketAddr × Node → ℕ) (current : SocketAddr)
    (f : SocketAddr × Node → Option U)
    → OnlyOutcomes buffer_unordered
    → ((peer : SocketAddr × Node) → Among peer room → MayAsk current peer → Holds Q (f peer))
    → Every Q (with_peers max buffer_unordered room sampler current f)
with_peers-Every Q max buffer_unordered room sampler current f yields step =
    let peers = stream_peers sampler room current in
    let called : Every (λ peer. Holds Q (f peer)) peers =
      Every-Among (λ peer. Holds Q (f peer)) peers
        (λ peer among.
          let (inside, may) = (stream_peers_mem sampler peer current room).0 among in
          step peer inside may) in
    Every-take Q max _ (
      filter_map-Every (Holds Q) Q (λ outcome. outcome) (buffer_unordered (map f peers))
        (λ outcome h. h) (yields.only (Holds Q) (map f peers) (Every-map (Holds Q) f peers called)))

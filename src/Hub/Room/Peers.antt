-- ===== src/Hub/Room/Peers.antt =====
-- Which peers are asked on behalf of a client, and in which order.
use samizdat.Prelude.{
  ℕ, ◌≡◌, ◌≢◌, ◌↔◌, ◌⊎◌, refl, sym, ◌∙◌, ap, inl, inr, ◌==◌, ==_iff, ◌&&◌, ◌||◌, not, Bool, true,
  false, List, [], ◌∷◌, Bool-cases, and_left, and_right, ltb, arith,
}
use samizdat.Rpc.{IpAddr, v4, v6, ip_eq, is_ipv6, is_loopback, SocketAddr}
use samizdat.Hub.Sampler.{sample, push_entry, push_all}
use samizdat.Hub.Sampler.Order.{AllBelow, Descending, sample-Descending}
use samizdat.Hub.Room.{Node, Room, bool_eq, is_included, keep_peers, stream_peers}

-- What holds of every entry of a list.
abbrev pub Every : {A : Type 0} → (A → Type 0) → List A → Type 0
Every P [] = Unit
Every P (a ∷ list) = P a × Every P list

-- Membership.
abbrev pub Among : {A : Type 0} → A → List A → Type 0
Among a [] = ⊥
Among a (b ∷ list) = (a ≡ b) ⊎ Among a list

pub Every-Among :
    {A : Type 0} (P : A → Type 0) (list : List A) → ((a : A) → Among a list → P a) → Every P list
Every-Among P [] h = tt
Every-Among P (a ∷ list) h = (h a (inl refl), Every-Among P list (λ b m. h b (inr m)))

-- A client's query may go to a peer that is at another host, or on the client's loopback host at another
-- port, and that has the client's version of IP.
abbrev pub MayAsk : SocketAddr → SocketAddr × Node → Type 0
MayAsk current (peer_id, peer) =
    ((peer.addr.ip ≢ current.ip)
      ⊎ ((is_loopback current.ip ≡ true) × (peer.addr.port ≢ current.port)))
    × (is_ipv6 peer.addr.ip ≡ is_ipv6 current.ip)

ip_eq_iff : (a b : IpAddr) → (ip_eq a b ≡ true) ↔ (a ≡ b)
unfolding ip_eq
ip_eq_iff (v4 a) (v4 b) = (λ h. ap v4 ((==_iff a b).0 h), λ e. (==_iff a b).1 (cc e))
ip_eq_iff (v6 a) (v6 b) = (λ h. ap v6 ((==_iff a b).0 h), λ e. (==_iff a b).1 (cc e))
ip_eq_iff (v4 a) (v6 b) = (λ h. absurd (cc h), λ e. absurd (cc e))
ip_eq_iff (v6 a) (v4 b) = (λ h. absurd (cc h), λ e. absurd (cc e))

bool_eq_iff : (a b : Bool) → (bool_eq a b ≡ true) ↔ (a ≡ b)
bool_eq_iff true true = (λ h. refl, λ e. refl)
bool_eq_iff true false = (λ h. absurd (cc h), λ e. absurd (cc e))
bool_eq_iff false true = (λ h. absurd (cc h), λ e. absurd (cc e))
bool_eq_iff false false = (λ h. refl, λ e. refl)

not_or_right : (a b : Bool) → a ≡ true → (not a || b) ≡ true → b ≡ true
not_or_right true b e h = h
not_or_right false b e h = absurd (cc e)

-- The test of the room is this one.
is_included_iff :
    (current : SocketAddr) (peer : SocketAddr × Node)
    → (is_included current peer ≡ true) ↔ MayAsk current peer
is_included_iff current (peer_id, peer) = (
  λ h. (
    elim (Bool-cases (ip_eq peer.addr.ip current.ip)) [
      | inl same ↦ inr (
          port_differs (
            not_or_right _ _ same (
              and_left
                (not (ip_eq peer.addr.ip current.ip)
                  || (is_loopback current.ip && not (peer.addr.port == current.port)))
                _ h)))
      | inr differ ↦ inl (λ e. cc (sym differ ∙ (ip_eq_iff _ _).1 e))
    ],
    (bool_eq_iff _ _).0 (and_right _ _ h),
  ),
  λ (apart, version). rw ((bool_eq_iff _ _).1 version) (elim apart [
    | inl differ ↦ elim (Bool-cases (ip_eq peer.addr.ip current.ip)) [
      | inl same ↦ absurd (differ ((ip_eq_iff _ _).0 same))
      | inr other ↦ rw other refl
    ]
    | inr (loopback, port) ↦ elim (Bool-cases (peer.addr.port == current.port)) [
      | inl same ↦ absurd (port ((==_iff _ _).0 same))
      | inr other ↦ rw (loopback, other) (ground arith)
    ]
  ]),
)
  where
    port_differs :
        (is_loopback current.ip && not (peer.addr.port == current.port)) ≡ true
        → (is_loopback current.ip ≡ true) × (peer.addr.port ≢ current.port)
    port_differs h = (
      and_left _ _ h,
      λ e. cc (sym (and_right (is_loopback current.ip) _ h) ∙ ap not ((==_iff _ _).1 e)),
    )

module _ (priority : SocketAddr × Node → ℕ) (peer : SocketAddr × Node) where
  push_entry_mem :
      (first : SocketAddr × Node) (queue : Room)
      → Among peer (push_entry priority first queue) ↔ Among peer (first ∷ queue)
  unfolding push_entry
  push_entry_mem first [] = (λ m. m, λ m. m)
  push_entry_mem first (second ∷ queue) =
      elim (Bool-cases (ltb (priority first) (priority second))) [
        | inl e ↦ rw e (swapped (push_entry_mem first queue))
        | inr e ↦ rw e (λ m. m, λ m. m)
      ]
    where
      forth : Among peer (first ∷ queue) → Among peer (first ∷ second ∷ queue)
      forth (inl e) = inl e
      forth (inr m) = inr (inr m)

      swapped :
          Among peer (push_entry priority first queue) ↔ Among peer (first ∷ queue)
          → Among peer (second ∷ push_entry priority first queue)
            ↔ Among peer (first ∷ second ∷ queue)
      swapped (to, from) = (there to, back from)
        where
          there :
              (Among peer (push_entry priority first queue) → Among peer (first ∷ queue))
              → Among peer (second ∷ push_entry priority first queue)
              → Among peer (first ∷ second ∷ queue)
          there to (inl e) = inr (inl e)
          there to (inr m) = forth (to m)

          back :
              (Among peer (first ∷ queue) → Among peer (push_entry priority first queue))
              → Among peer (first ∷ second ∷ queue)
              → Among peer (second ∷ push_entry priority first queue)
          back from (inl e) = inr (from (inl e))
          back from (inr (inl e)) = inl e
          back from (inr (inr m)) = inr (from (inr m))

  push_all_mem :
      (queue nodes : Room)
      → Among peer (push_all priority queue nodes) ↔ (Among peer nodes ⊎ Among peer queue)
  unfolding push_all
  push_all_mem queue [] = (λ m. inr m, λ m. elim m [ inl n ↦ absurd n | inr q ↦ q ])
  push_all_mem queue (first ∷ nodes) =
      let (to, from) = push_all_mem (push_entry priority first queue) nodes in
      let (out, into) = push_entry_mem first queue in
      (
        λ m. elim (to m) [
          | inl n ↦ inl (inr n)
          | inr q ↦ elim (out q) [ inl e ↦ inl (inl e) | inr r ↦ inr r ]
        ],
        λ m. elim m [
          | inl n ↦ elim n [ inl e ↦ from (inr (into (inl e))) | inr r ↦ from (inl r) ]
          | inr q ↦ from (inr (into (inr q)))
        ],
      )

  keep_peers_mem :
      (current : SocketAddr) (peers : Room)
      → Among peer (keep_peers current peers) ↔ (Among peer peers × MayAsk current peer)
  unfolding keep_peers
  keep_peers_mem current [] = (λ m. absurd m, λ m. m.0)
  keep_peers_mem current (first ∷ peers) =
      let (to, from) = keep_peers_mem current peers in
      elim (Bool-cases (is_included current first)) [
        | inl e ↦ rw e (
          λ m. elim m [
            | inl same ↦ (inl same, rw (← same) at ((is_included_iff current first).0 e))
            | inr r ↦ (inr (to r).0, (to r).1)
          ],
          λ (m, may). elim m [ inl same ↦ inl same | inr r ↦ inr (from (r, may)) ],
        )
        | inr e ↦ rw e (
          λ m. (inr (to m).0, (to m).1),
          λ (m, may). elim m [
            | inl same ↦ absurd (
                cc (
                  sym e
                  ∙ ap (λ p. is_included current p) (sym same)
                  ∙ (is_included_iff current peer).1 may))
            | inr r ↦ from (r, may)
          ],
        )
      ]

  pub stream_peers_mem :
      (current : SocketAddr) (room : Room)
      → Among peer (stream_peers priority room current) ↔ (Among peer room × MayAsk current peer)
  stream_peers_mem current room =
      let (to, from) = keep_peers_mem current (sample priority room) in
      let (out, into) = push_all_mem [] room in
      (
        λ m. (elim (out (to m).0) [ inl n ↦ n | inr q ↦ absurd q ], (to m).1),
        λ (m, may). from (into (inl m), may),
      )

module _ (priority : SocketAddr × Node → ℕ) (current : SocketAddr) where
  keep_peers-AllBelow :
      (peers : Room) (bound : ℕ)
      → AllBelow priority bound peers
      → AllBelow priority bound (keep_peers current peers)
  unfolding keep_peers
  keep_peers-AllBelow [] bound h = tt
  keep_peers-AllBelow (peer ∷ peers) bound h = elim (Bool-cases (is_included current peer)) [
    | inl e ↦ rw e (h.0, keep_peers-AllBelow peers bound h.1)
    | inr e ↦ rw e (keep_peers-AllBelow peers bound h.1)
  ]

  keep_peers-Descending :
      (peers : Room) → Descending priority peers → Descending priority (keep_peers current peers)
  unfolding keep_peers
  keep_peers-Descending [] h = tt
  keep_peers-Descending (peer ∷ peers) h = elim (Bool-cases (is_included current peer)) [
    | inl e ↦ rw e (keep_peers-AllBelow peers _ h.0, keep_peers-Descending peers h.1)
    | inr e ↦ rw e (keep_peers-Descending peers h.1)
  ]

module _ (priority : SocketAddr × Node → ℕ) (current : SocketAddr) where
  -- A node of the room is among the peers that `stream_peers` yields for a client if and only if it is
  -- at another host, or on the client's loopback host at another port, and has the client's version of
  -- IP. No peer is yielded before one of a higher priority.
  pub stream_peers-Descending :
      (room : Room) (peer : SocketAddr × Node)
      → (Among peer (stream_peers priority room current) ↔ (Among peer room × MayAsk current peer))
        × Descending priority (stream_peers priority room current)
  stream_peers-Descending room peer = (
    stream_peers_mem priority peer current room,
    keep_peers-Descending priority current (sample priority room)
        (sample-Descending priority room).1,
  )

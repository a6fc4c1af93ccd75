-- ===== src/Channel/Delivery.antt =====
-- Delivery through a `KeyedChannel`.
use samizdat.Prelude.{
  ℕ, ◌<◌, ◌≡◌, sym, ◌∙◌, ap, Bool, true, false, List, [], ◌∷◌, ◌++◌, Option, none, some, arith,
  ◌==◌, if◌then◌else◌, append-nil, append_assoc,
}
use samizdat.Channel.{
  KeyedChannel, RecvStream, update, unbounded_send, send, recv_stream, drop_stream,
}

module _ {ℓ} {T : Type ℓ} where
  -- Every sender in the map belongs to a stream that was made, and two keys have two streams.
  pub record IsValid (c : KeyedChannel T) : Type ℓ where
    pub made : (k s : ℕ) → c.channels k ≡ some s → s < c.next_stream
    pub apart : (j k s : ℕ) → c.channels j ≡ some s → c.channels k ≡ some s → j ≡ k

  pub send-IsValid : (c : KeyedChannel T) (k : ℕ) (v : T) → IsValid c → IsValid (send c k v)
  unfolding send unbounded_send
  send-IsValid c k v h = elim (c.channels k) as (λ o. IsValid (sent o)) [
    | none ↦ h
    | some s ↦ elim (c.open_streams s) as (λ b. IsValid (delivered s b)) [
      | true ↦ record { made = h.made; apart = h.apart }
      | false ↦ h
    ]
  ]
    where
      delivered : ℕ → Bool → KeyedChannel T
      delivered s b =
          if b then record c { queues = update c.queues s (c.queues s ++ v ∷ []) } else c

      sent : Option ℕ → KeyedChannel T
      sent o = elim o [ none ↦ c | some s ↦ delivered s (c.open_streams s) ]

  pub recv_stream-IsValid : (c : KeyedChannel T) (k : ℕ) → IsValid c → IsValid (recv_stream c k).0
  unfolding recv_stream
  recv_stream-IsValid c k h = record {
    made = λ j s e. ground (arith, h.made j s);
    apart = λ i j s e f. ground (arith, h.made i s, h.made j s, h.apart i j s);
  }

  pub drop_stream-IsValid :
      (c : KeyedChannel T) (s : RecvStream) → IsValid c → IsValid (drop_stream c s)
  unfolding drop_stream
  drop_stream-IsValid c s h = record {
    made = λ j t e. ground (arith, h.made j t);
    apart = λ i j t e f. ground (arith, h.apart i j t);
  }

  -- Calls of `send`, each with its key and value.
  abbrev pub send_all : KeyedChannel T → List (ℕ × T) → KeyedChannel T
  send_all c [] = c
  send_all c ((k, v) ∷ sends) = send_all (send c k v) sends

  -- The values that are sent under one key, in their order.
  abbrev pub under_key : ℕ → List (ℕ × T) → List T
  under_key k [] = []
  under_key k ((j, v) ∷ sends) = if j == k then v ∷ under_key k sends else under_key k sends

  -- A stream that is connected under a key.
  pub record IsConnected (c : KeyedChannel T) (s : RecvStream) : Type ℓ where
    pub valid : IsValid c
    pub routed : c.channels s.key ≡ some s.recv
    pub alive : c.open_streams s.recv ≡ true

  recv_stream-IsConnected :
      (c : KeyedChannel T) (k : ℕ)
      → IsValid c
      → let (c', s) = recv_stream c k in IsConnected c' s × (c'.queues s.recv ≡ [])
  unfolding recv_stream
  recv_stream-IsConnected c k h = (
    record {
      valid = unfold recv_stream in recv_stream-IsValid c k h;
      routed = ground arith;
      alive = ground arith;
    },
    ground arith,
  )

  send_routes :
      (c : KeyedChannel T) (k : ℕ) (v : T)
      → ((send c k v).channels ≡ c.channels) × ((send c k v).open_streams ≡ c.open_streams)
  unfolding send unbounded_send
  send_routes c k v = (ground arith, ground arith)

  send_queue :
      (c : KeyedChannel T) (s : RecvStream) (k : ℕ) (v : T)
      → IsConnected c s
      → (send c k v).queues s.recv
        ≡ (if k == s.key then c.queues s.recv ++ v ∷ [] else c.queues s.recv)
  unfolding send unbounded_send
  send_queue c s k v h = ground (arith, h.routed, h.alive, h.valid.apart k s.key s.recv)

  send-IsConnected :
      (c : KeyedChannel T) (s : RecvStream) (k : ℕ) (v : T)
      → IsConnected c s
      → IsConnected (send c k v) s
  send-IsConnected c s k v h =
      let (e, f) = send_routes c k v in
      record {
        valid = send-IsValid c k v h.valid;
        routed = ap (λ g. g s.key) e ∙ h.routed;
        alive = ap (λ g. g s.recv) f ∙ h.alive;
      }

  send_all-queue :
      (sends : List (ℕ × T)) (c : KeyedChannel T) (s : RecvStream)
      → IsConnected c s
      → (send_all c sends).queues s.recv ≡ c.queues s.recv ++ under_key s.key sends
  send_all-queue [] c s h = sym (append-nil (c.queues s.recv))
  send_all-queue ((k, v) ∷ sends) c s h = ground (
    arith,
    send_all-queue sends (send c k v) s (send-IsConnected c s k v h),
    send_queue c s k v h,
    append_assoc (c.queues s.recv) (v ∷ []) (under_key s.key sends),
  )

  -- A stream made by `recv_stream` on a valid channel receives, after any calls of `send` under any
  -- keys, exactly the values that were sent under its key, in the order of the calls.
  pub recv_stream-send_all :
      (c : KeyedChannel T) (k : ℕ) (sends : List (ℕ × T))
      → IsValid c
      → let (c', s) = recv_stream c k in (send_all c' sends).queues s.recv ≡ under_key s.key sends
  recv_stream-send_all c k sends h =
      let (connected, empty) = recv_stream-IsConnected c k h in
      send_all-queue sends (recv_stream c k).0 (recv_stream c k).1 connected
      ∙ ap (λ q. q ++ under_key (recv_stream c k).1.key sends) empty

  -- Dropping a stream cuts off a newer stream under the same key, which still lives: nothing that is
  -- sent under the key afterwards arrives anywhere.
  pub drop_stream-newer :
      (c : KeyedChannel T) (k : ℕ) (v : T)
      → let (c₁, older) = recv_stream c k in
        let (c₂, newer) = recv_stream c₁ k in
        let c₃ = drop_stream c₂ older in (c₃.open_streams newer.recv ≡ true) × (send c₃ k v ≡ c₃)
  unfolding recv_stream drop_stream send
  drop_stream-newer c k v = (ground arith, ground arith)

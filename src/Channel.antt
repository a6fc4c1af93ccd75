-- ===== src/Channel.antt =====
-- common/src/keyed_channel.rs: `KeyedChannel`, a map from channel ids to the senders of unbounded
-- queues. The queues of `futures::channel::mpsc` are kept in the state, each under the number of the
-- stream that reads it.
pub mod Delivery
use samizdat.Prelude.{
  ℕ, ◌+◌, Bool, true, false, List, [], ◌∷◌, ◌++◌, Option, none, some, ◌==◌, if◌then◌else◌,
}

abbrev pub update {ℓ} : {A : Type ℓ} → (ℕ → A) → ℕ → A → ℕ → A
update f k v n = if n == k then v else f n

pub record KeyedChannel {ℓ} (T : Type ℓ) : Type ℓ where
  -- The stream that the sender under a key feeds.
  pub channels : ℕ → Option ℕ
  pub queues : ℕ → List T
  -- Streams whose receiver still lives.
  pub open_streams : ℕ → Bool
  pub next_stream : ℕ

pub record RecvStream : Type 0 where
  pub recv : ℕ
  pub key : ℕ

module _ {ℓ} {T : Type ℓ} where
  abbrev pub new : KeyedChannel T
  new = record {
    channels = λ _. none;
    queues = λ _. [];
    open_streams = λ _. false;
    next_stream = 0;
  }

  -- `unbounded_send` on a stream: an error, which is ignored, if the receiver is gone.
  unfoldable pub unbounded_send : KeyedChannel T → ℕ → T → KeyedChannel T
  unbounded_send c stream value =
      if c.open_streams stream
      then record c { queues = update c.queues stream (c.queues stream ++ value ∷ []) }
      else c

  unfoldable pub send : KeyedChannel T → ℕ → T → KeyedChannel T
  send c key value = elim (c.channels key) [
    | none ↦ c
    | some stream ↦ unbounded_send c stream value
  ]

  unfoldable pub recv_stream : KeyedChannel T → ℕ → KeyedChannel T × RecvStream
  recv_stream c key = (
    record {
      channels = update c.channels key (some c.next_stream);
      queues = update c.queues c.next_stream [];
      open_streams = update c.open_streams c.next_stream true;
      next_stream = c.next_stream + 1;
    },
    record { recv = c.next_stream; key = key },
  )

  -- `Drop for RecvStream`, and the drop of its receiver.
  unfoldable pub drop_stream : KeyedChannel T → RecvStream → KeyedChannel T
  drop_stream c s = record c {
    channels = update c.channels s.key none;
    open_streams = update c.open_streams s.recv false;
  }

  abbrev pub pop : List T → Option (T × List T)
  pop [] = none
  pop (value ∷ rest) = some (value, rest)

  -- `poll_next`: the first value of the queue; `none` is `Pending`, or the end once no sender is left.
  unfoldable pub poll_next : KeyedChannel T → RecvStream → KeyedChannel T × Option T
  poll_next c s = elim (pop (c.queues s.recv)) [
    | none ↦ (c, none)
    | some (value, rest) ↦ (record c { queues = update c.queues s.recv rest }, some value)
  ]

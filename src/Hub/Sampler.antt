-- ===== src/Hub/Sampler.antt =====
-- hub/src/rpc/node_sampler.rs: the statistics of a node, and the order in which nodes are asked. The
-- random priority is computed in floating point numbers and is an argument, of which only the order
-- matters; latencies are kept as they were observed, in milliseconds.
pub mod Order
use samizdat.Prelude.{ℕ, ◌+◌, ltb, List, [], ◌∷◌, if◌then◌else◌}

-- `StatisticsInner`, with its counts less the pseudo-observations.
pub record Statistics : Type 0 where
  pub requests : ℕ
  pub successes : ℕ
  pub latencies : List ℕ

abbrev pub default_statistics : Statistics
default_statistics = record { requests = 0; successes = 0; latencies = [] }

-- `start_experiment`, which calls `start_request`.
abbrev pub start_experiment : Statistics → Statistics
start_experiment s = record s { requests = s.requests + 1 }

-- `end_with_success`, with the time that has passed; a time below one millisecond counts as one.
abbrev pub end_with_success : Statistics → ℕ → Statistics
end_with_success s latency = record s {
  successes = s.successes + 1;
  latencies = (if ltb latency 1 then 1 else latency) ∷ s.latencies;
}

module _ {A : Type 0} (sample_priority : A → ℕ) where
  -- The heap as the list of its entries in the order of `pop`: the greatest priority is first. Entries
  -- of one priority come in an order that the code leaves open.
  unfoldable pub push_entry : A → List A → List A
  push_entry a [] = a ∷ []
  push_entry a (b ∷ queue) =
      let rest = push_entry a queue in
      if ltb (sample_priority a) (sample_priority b) then b ∷ rest else a ∷ b ∷ queue

  unfoldable pub push_all : List A → List A → List A
  push_all queue [] = queue
  push_all queue (a ∷ nodes) = push_all (push_entry a queue) nodes

  -- `sample`, with all that its iterator yields.
  abbrev pub sample : List A → List A
  sample nodes = push_all [] nodes

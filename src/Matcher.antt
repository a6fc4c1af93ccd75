-- ===== src/Matcher.antt =====
-- node/src/system/transport/matcher.rs: `Matcher`, which hands what arrives under an address to the one
-- who expects it there. The critical sections under its lock are the steps; the addresses are numbers.
pub mod Matching
use samizdat.Prelude.{
  ℕ, zero, suc, ◌==◌, Bool, true, false, List, [], ◌∷◌, ◌++◌, Option, none, some, get_elem?, take,
  drop, if◌then◌else◌,
}

-- The tasks that `tokio::spawn` starts, which sleep and then remove what is still there.
pub data Timer : Type 0 where
  expecting_timer arrived_timer : ℕ → Timer

-- A waiter is the number of its call; `delivered` is what was handed to waiters, the last first.
pub record MatcherInner (T : Type 0) : Type 0 where
  pub expecting : ℕ → Option ℕ
  pub arrived : ℕ → Option T
  pub delivered : List (ℕ × T)
  pub timers : List Timer

-- How a call ends: the item, or nothing to return yet, or a failed `assert!`.
pub data Outcome (T : Type 0) : Type 0 where
  got : T → Outcome T
  waiting : Outcome T
  left : Outcome T
  panicked : Outcome T

abbrev pub set_at : {V : Type 0} → (ℕ → Option V) → ℕ → Option V → ℕ → Option V
set_at entries addr value other = if other == addr then value else entries other

abbrev pub empty_map : {V : Type 0} → ℕ → Option V
empty_map addr = none

module _ {T : Type 0} where
  abbrev pub new_matcher : MatcherInner T
  new_matcher = record { expecting = empty_map; arrived = empty_map; delivered = []; timers = [] }

  -- `expect`, where nothing has arrived, by what was expected there before. The entry is replaced
  -- before the assertion, and a panic starts no timer.
  abbrev pub wait_for : MatcherInner T → ℕ → ℕ → Option ℕ → MatcherInner T × Outcome T
  wait_for m addr waiter (some before) =
      (record m { expecting = set_at m.expecting addr (some waiter) }, panicked)
  wait_for m addr waiter none = (
    record m {
      expecting = set_at m.expecting addr (some waiter);
      timers = m.timers ++ expecting_timer addr ∷ [];
    },
    waiting,
  )

  abbrev pub expect_at : MatcherInner T → ℕ → ℕ → Option T → MatcherInner T × Outcome T
  expect_at m addr waiter (some item) = (
    record m { arrived = set_at m.arrived addr none; delivered = (waiter, item) ∷ m.delivered },
    got item,
  )
  expect_at m addr waiter none = wait_for m addr waiter (m.expecting addr)

  unfoldable pub expect : MatcherInner T → ℕ → ℕ → MatcherInner T × Outcome T
  expect m addr waiter = expect_at m addr waiter (m.arrived addr)

  -- `arrive`, where nobody expects the item, by what has arrived there before.
  abbrev pub leave : MatcherInner T → ℕ → T → Option T → MatcherInner T × Outcome T
  leave m addr item (some before) =
      (record m { arrived = set_at m.arrived addr (some item) }, panicked)
  leave m addr item none = (
    record m {
      arrived = set_at m.arrived addr (some item);
      timers = m.timers ++ arrived_timer addr ∷ [];
    },
    left,
  )

  abbrev pub arrive_at : MatcherInner T → ℕ → T → Option ℕ → MatcherInner T × Outcome T
  arrive_at m addr item (some waiter) = (
    record m { expecting = set_at m.expecting addr none; delivered = (waiter, item) ∷ m.delivered },
    left,
  )
  arrive_at m addr item none = leave m addr item (m.arrived addr)

  unfoldable pub arrive : MatcherInner T → ℕ → T → MatcherInner T × Outcome T
  arrive m addr item = arrive_at m addr item (m.expecting addr)

  -- A timer ends: it removes what stands under its address, whoever put it there.
  abbrev pub expire : MatcherInner T → Timer → MatcherInner T
  expire m (expecting_timer addr) = record m { expecting = set_at m.expecting addr none }
  expire m (arrived_timer addr) = record m { arrived = set_at m.arrived addr none }

  abbrev pub fire_at : MatcherInner T → ℕ → Option Timer → MatcherInner T
  fire_at m n none = m
  fire_at m n (some timer) =
      expire (record m { timers = take n m.timers ++ drop (suc n) m.timers }) timer

  unfoldable pub fire : MatcherInner T → ℕ → MatcherInner T
  fire m n = fire_at m n (get_elem? m.timers n)

  -- The steps, in any order.
  pub data Step : MatcherInner T → MatcherInner T → Type 0 where
    expects : (m : MatcherInner T) (addr waiter : ℕ) → Step m (expect m addr waiter).0
    arrives : (m : MatcherInner T) (addr : ℕ) (item : T) → Step m (arrive m addr item).0
    fires : (m : MatcherInner T) (n : ℕ) → Step m (fire m n)

  -- What steps make of a new matcher.
  pub data Reachable : MatcherInner T → Type 0 where
    begin : Reachable new_matcher
    after : {m m' : MatcherInner T} → Reachable m → Step m m' → Reachable m'

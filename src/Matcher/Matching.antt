-- ===== src/Matcher/Matching.antt =====
-- What expects and what arrives is matched.
use samizdat.Prelude.{
  ℕ, ◌==◌, ==_iff, ◌≡◌, refl, ap, sym, ◌∙◌, true, [], ◌∷◌, ◌++◌, Option, none, some, get_elem?,
  Bool-cases, inl, inr, ◌⊎◌, if◌then◌else◌,
}
use samizdat.Matcher.{
  Timer, expecting_timer, arrived_timer, MatcherInner, set_at, new_matcher, expect_at, wait_for,
  expect, arrive_at, leave, arrive, fire_at, fire, Step, expects, arrives, fires, Reachable, begin,
  after,
}

-- Something was put under an address where there is nothing on the other side.
put_apart :
    {V W : Type 0} (f : ℕ → Option V) (g : ℕ → Option W) (addr other : ℕ) (value : Option V)
    → ((k : ℕ) → (f k ≡ none) ⊎ (g k ≡ none))
    → g addr ≡ none
    → (set_at f addr value other ≡ none) ⊎ (g other ≡ none)
put_apart f g addr other value apart free = elim (Bool-cases (other == addr)) [
  | inl same ↦ inr (ap g ((==_iff other addr).0 same) ∙ free)
  | inr differ ↦ elim (apart other) [ inl e ↦ inl (rw differ e) | inr e ↦ inr e ]
]

remove_apart :
    {V W : Type 0} (f : ℕ → Option V) (g : ℕ → Option W) (addr other : ℕ)
    → ((k : ℕ) → (f k ≡ none) ⊎ (g k ≡ none))
    → (set_at f addr none other ≡ none) ⊎ (g other ≡ none)
remove_apart f g addr other apart = elim (Bool-cases (other == addr)) [
  | inl same ↦ inl (rw same refl)
  | inr differ ↦ elim (apart other) [ inl e ↦ inl (rw differ e) | inr e ↦ inr e ]
]

swap : {A B : Type 0} → A ⊎ B → B ⊎ A
swap (inl a) = inr a
swap (inr b) = inl b

-- What was put under a free address and removed leaves the map as it was.
put_back :
    {V : Type 0} (f : ℕ → Option V) (addr other : ℕ) (value : Option V)
    → f addr ≡ none
    → set_at (set_at f addr value) addr none other ≡ f other
put_back f addr other value free = elim (Bool-cases (other == addr)) [
  | inl same ↦ rw same (sym (ap f ((==_iff other addr).0 same) ∙ free))
  | inr differ ↦ rw differ refl
]

module _ {T : Type 0} where
  -- Under an address something is expected or has arrived, not both.
  abbrev Apart : MatcherInner T → ℕ → Type 0
  Apart m addr = (m.expecting addr ≡ none) ⊎ (m.arrived addr ≡ none)

  abbrev AllApart : MatcherInner T → Type 0
  AllApart m = (addr : ℕ) → Apart m addr

  wait_for-Apart :
      (m : MatcherInner T) (addr waiter : ℕ) (before : Option ℕ)
      → AllApart m
      → m.arrived addr ≡ none
      → AllApart (wait_for m addr waiter before).0
  wait_for-Apart m addr waiter none apart free other =
      put_apart m.expecting m.arrived addr other (some waiter) apart free
  wait_for-Apart m addr waiter (some before) apart free other =
      put_apart m.expecting m.arrived addr other (some waiter) apart free

  expect_at-Apart :
      (m : MatcherInner T) (addr waiter : ℕ) (o : Option T)
      → AllApart m
      → m.arrived addr ≡ o
      → AllApart (expect_at m addr waiter o).0
  expect_at-Apart m addr waiter none apart e =
      wait_for-Apart m addr waiter (m.expecting addr) apart e
  expect_at-Apart m addr waiter (some item) apart e =
      λ other. swap (remove_apart m.arrived m.expecting addr other (λ k. swap (apart k)))

  leave-Apart :
      (m : MatcherInner T) (addr : ℕ) (item : T) (before : Option T)
      → AllApart m
      → m.expecting addr ≡ none
      → AllApart (leave m addr item before).0
  leave-Apart m addr item none apart free other =
      swap (put_apart m.arrived m.expecting addr other (some item) (λ k. swap (apart k)) free)
  leave-Apart m addr item (some before) apart free other =
      swap (put_apart m.arrived m.expecting addr other (some item) (λ k. swap (apart k)) free)

  arrive_at-Apart :
      (m : MatcherInner T) (addr : ℕ) (item : T) (o : Option ℕ)
      → AllApart m
      → m.expecting addr ≡ o
      → AllApart (arrive_at m addr item o).0
  arrive_at-Apart m addr item none apart e = leave-Apart m addr item (m.arrived addr) apart e
  arrive_at-Apart m addr item (some waiter) apart e =
      λ other. remove_apart m.expecting m.arrived addr other apart

  fire_at-Apart :
      (m : MatcherInner T) (n : ℕ) (o : Option Timer) → AllApart m → AllApart (fire_at m n o)
  fire_at-Apart m n none apart = apart
  fire_at-Apart m n (some (expecting_timer addr)) apart =
      λ other. remove_apart m.expecting m.arrived addr other apart
  fire_at-Apart m n (some (arrived_timer addr)) apart =
      λ other. swap (remove_apart m.arrived m.expecting addr other (λ k. swap (apart k)))

  Step-Apart : {m m' : MatcherInner T} → Step m m' → AllApart m → AllApart m'
  unfolding expect arrive fire
  Step-Apart (expects m addr waiter) apart =
      expect_at-Apart m addr waiter (m.arrived addr) apart refl
  Step-Apart (arrives m addr item) apart = arrive_at-Apart m addr item (m.expecting addr) apart refl
  Step-Apart (fires m n) apart = fire_at-Apart m n (get_elem? m.timers n) apart

  Reachable-AllApart : {m : MatcherInner T} → Reachable m → AllApart m
  Reachable-AllApart begin = λ addr. inl refl
  Reachable-AllApart (after reached step) = Step-Apart step (Reachable-AllApart reached)

  -- In every state that calls of `expect` and `arrive` and ending timers lead to from a new matcher,
  -- in any order and whether or not a call panics, no address has both someone who expects an item
  -- and an item that has arrived.
  pub Reachable-Apart :
      (m : MatcherInner T) (addr : ℕ)
      → Reachable m
      → (m.expecting addr ≡ none) ⊎ (m.arrived addr ≡ none)
  Reachable-Apart m addr reached = Reachable-AllApart reached addr

  -- Where an address is free, it makes no difference to anybody's items and to what is left whether
  -- the expectation or the item comes first: the item goes to the one who expects it, and the address
  -- is free again.
  pub expect-arrive :
      (m : MatcherInner T) (addr waiter other : ℕ) (item : T)
      → m.expecting addr ≡ none
      → m.arrived addr ≡ none
      → ((arrive (expect m addr waiter).0 addr item).0.delivered ≡ (waiter, item) ∷ m.delivered)
        × ((expect (arrive m addr item).0 addr waiter).0.delivered ≡ (waiter, item) ∷ m.delivered)
        × ((arrive (expect m addr waiter).0 addr item).0.expecting other ≡ m.expecting other)
        × ((expect (arrive m addr item).0 addr waiter).0.expecting other ≡ m.expecting other)
        × ((arrive (expect m addr waiter).0 addr item).0.arrived other ≡ m.arrived other)
        × ((expect (arrive m addr item).0 addr waiter).0.arrived other ≡ m.arrived other)
  unfolding expect arrive
  expect-arrive m addr waiter other item nobody nothing =
      let self : (addr == addr) ≡ true = (==_iff addr addr).1 refl in
      let first = ap (expect_at m addr waiter) nothing ∙ ap (wait_for m addr waiter) nobody in
      let second = ap (arrive_at m addr item) nobody ∙ ap (leave m addr item) nothing in
      let waited : MatcherInner T = record m {
        expecting = set_at m.expecting addr (some waiter);
        timers = m.timers ++ expecting_timer addr ∷ [];
      } in
      let stays : MatcherInner T = record m {
        arrived = set_at m.arrived addr (some item);
        timers = m.timers ++ arrived_timer addr ∷ [];
      } in
      let expected : arrive (expect m addr waiter).0 addr item
          ≡ arrive_at waited addr item (some waiter) =
        ap (λ r. arrive r.0 addr item) first
        ∙ ap (λ b. arrive_at waited addr item (if b then some waiter else m.expecting addr)) self in
      let left_there : expect (arrive m addr item).0 addr waiter
          ≡ expect_at stays addr waiter (some item) =
        ap (λ r. expect r.0 addr waiter) second
        ∙ ap (λ b. expect_at stays addr waiter (if b then some item else m.arrived addr)) self in
      (
        ap (λ r. r.0.delivered) expected,
        ap (λ r. r.0.delivered) left_there,
        ap (λ r. r.0.expecting other) expected
            ∙ put_back m.expecting addr other (some waiter) nobody,
        ap (λ r. r.0.expecting other) left_there,
        ap (λ r. r.0.arrived other) expected,
        ap (λ r. r.0.arrived other) left_there ∙ put_back m.arrived addr other (some item) nothing,
      )

  -- An expectation that was met leaves its timer behind. If nothing else is going on, and somebody else
  -- then expects an item under the same address, the timer of the first expectation ends the second
  -- one: an item that arrives after that is delivered to nobody.
  pub expect-fire :
      (addr first second : ℕ) (item late : T)
      → (arrive
          (fire (expect (arrive (expect new_matcher addr first).0 addr item).0 addr second).0 0)
          addr
          late).0.delivered
        ≡ (first, item) ∷ []
  unfolding expect arrive fire
  expect-fire addr first second item late =
      let self : (addr == addr) ≡ true = (==_iff addr addr).1 refl in
      rw self (rw self (rw self refl))

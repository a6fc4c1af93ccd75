-- ===== src/Examples/Matchers.antt =====
-- A channel that is expected, and one that arrives.
use samizdat.Prelude.{ℕ, ◌≡◌, ◌⊎◌, [], ◌∷◌, none}
use samizdat.Matcher.{
  MatcherInner, new_matcher, expect, arrive, fire, expects, arrives, fires, begin, after,
}
use samizdat.Matcher.Matching.{Reachable-Apart, expect-fire}

abbrev fresh : MatcherInner ℕ
fresh = new_matcher

abbrev busy : MatcherInner ℕ
busy = (expect (arrive (fire (expect new_matcher 7 1).0 0) 7 50).0 8 2).0

Reachable-Apart_example : (busy.expecting 8 ≡ none) ⊎ (busy.arrived 8 ≡ none)
Reachable-Apart_example = Reachable-Apart busy 8 (
    after (after (after (after begin (expects new_matcher 7 1)) (fires _ 0)) (arrives _ 7 50))
      (expects _ 8 2))

expect-fire_example :
    (arrive (fire (expect (arrive (expect fresh 7 1).0 7 50).0 7 2).0 0) 7 60).0.delivered
    ≡ (1, 50) ∷ []
expect-fire_example = expect-fire 7 1 2 50 60

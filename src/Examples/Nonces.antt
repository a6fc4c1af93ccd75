-- ===== src/Examples/Nonces.antt =====
-- A nonce that is checked, replayed and forgotten.
use samizdat.Prelude.{◌≡◌, ◌≢◌, refl, true, false, List, [], ◌∷◌, none, some, arith}
use samizdat.Replay.{ReplayResistance, Faults, ok, check}
use samizdat.Replay.Window.{Event, checked, cleaned, run, check-once}
use samizdat.Examples.{key_of}

abbrev pub fine : Faults
fine = record { get_fails = false; put_fails = false }

abbrev pub start : ReplayResistance
start = record { recent_nonces = λ k. none }

abbrev seen : ReplayResistance
seen = record { recent_nonces = λ k. some 1000 }

start-check : (check start 1000 (key_of 5) fine).1 ≡ ok true
unfolding check
start-check = refl

abbrev pub between : List Event
between = checked 1100 (key_of 6) fine ∷ cleaned 2200 (λ k. false) ∷ []

check-once_example :
    (check (run (check start 1000 (key_of 5) fine).0 between) 2201 (key_of 5) fine).1 ≢ ok true
check-once_example =
    check-once start 1000 2201 (key_of 5) fine fine between start-check (omega arith, tt)

-- ===== src/Replay/Window.antt =====
-- No nonce is accepted twice within the window.
use samizdat.Prelude.{
  ℕ, ◌+◌, ◌*◌, ◌≤◌, ◌≡◌, ◌≢◌, refl, Bool, true, false, List, [], ◌∷◌, none, some, arith, ltb,
  if◌then◌else◌,
}
use samizdat.Hash.{Hash, hash_eq, hash_eq_iff}
use samizdat.Replay.{tolerated_age, ReplayResistance, Faults, ok, check, expire, cleanup}

-- What other queries and the clean-up task do between two checks.
pub data Event : Type 0 where
  checked : ℕ → Hash → Faults → Event
  cleaned : ℕ → (Hash → Bool) → Event

unfoldable pub run : ReplayResistance → List Event → ReplayResistance
run r [] = r
run r (checked now nonce faults ∷ events) = run (check r now nonce faults).0 events
run r (cleaned now fails ∷ events) = run (cleanup r now fails) events

-- No clean-up in the list runs after the given time.
abbrev pub CleanedUntil : ℕ → List Event → Type 0
CleanedUntil t [] = Unit
CleanedUntil t (checked now nonce faults ∷ events) = CleanedUntil t events
CleanedUntil t (cleaned now fails ∷ events) = (now ≤ t) × CleanedUntil t events

check_keeps :
    (r : ReplayResistance) (now : ℕ) (nonce k : Hash) (faults : Faults) (t : ℕ)
    → r.recent_nonces k ≡ some t
    → (check r now nonce faults).0.recent_nonces k ≡ some t
unfolding check
check_keeps r now nonce k faults t h = ground (arith, hash_eq_iff k nonce)

cleanup_keeps :
    (r : ReplayResistance) (now : ℕ) (fails : Hash → Bool) (k : Hash) (t : ℕ)
    → now ≤ t + 2 * tolerated_age
    → r.recent_nonces k ≡ some t
    → (cleanup r now fails).recent_nonces k ≡ some t
unfolding cleanup expire
cleanup_keeps r now fails k t w h = rw h (ground arith)

run_keeps :
    (events : List Event) (r : ReplayResistance) (k : Hash) (t : ℕ)
    → CleanedUntil (t + 2 * tolerated_age) events
    → r.recent_nonces k ≡ some t
    → (run r events).recent_nonces k ≡ some t
unfolding run
run_keeps [] r k t w h = h
run_keeps (checked now nonce faults ∷ events) r k t w h =
    run_keeps events (check r now nonce faults).0 k t w (check_keeps r now nonce k faults t h)
run_keeps (cleaned now fails ∷ events) r k t w h =
    run_keeps events (cleanup r now fails) k t w.1 (cleanup_keeps r now fails k t w.0 h)

check_stores :
    (r : ReplayResistance) (now : ℕ) (nonce : Hash) (faults : Faults)
    → (check r now nonce faults).1 ≡ ok true
    → (check r now nonce faults).0.recent_nonces nonce ≡ some now
unfolding check
check_stores r now nonce faults h = ground (arith, (hash_eq_iff nonce nonce).1 refl)

check_seen :
    (r : ReplayResistance) (now : ℕ) (nonce : Hash) (faults : Faults) (t : ℕ)
    → r.recent_nonces nonce ≡ some t
    → (check r now nonce faults).1 ≢ ok true
unfolding check
check_seen r now nonce faults t h = ground arith

-- After `check` has accepted a nonce at a time, no check of it is accepted until a clean-up has run
-- later than 1200 seconds after that time, whatever other checks, clean-ups and database errors come
-- in between.
pub check-once :
    (r : ReplayResistance) (now later : ℕ) (nonce : Hash) (faults faults' : Faults)
    (events : List Event)
    → (check r now nonce faults).1 ≡ ok true
    → CleanedUntil (now + 1200) events
    → (check (run (check r now nonce faults).0 events) later nonce faults').1 ≢ ok true
check-once r now later nonce faults faults' events h w =
    check_seen (run (check r now nonce faults).0 events) later nonce faults' now (
      run_keeps events (check r now nonce faults).0 nonce now w (check_stores r now nonce faults h))

-- With no failing delete a clean-up forgets exactly the nonces that are older than 1200 seconds.
pub cleanup-expired :
    (r : ReplayResistance) (now : ℕ) (k : Hash) (t : ℕ)
    → r.recent_nonces k ≡ some t
    → (cleanup r now (λ _. false)).recent_nonces k ≡ (if ltb (t + 1200) now then none else some t)
unfolding cleanup expire
cleanup-expired r now k t h = rw h (ground arith)

-- A nonce that is not in the table is accepted, if the database does not fail. Its time is stored, and
-- no other nonce is touched.
pub check-fresh :
    (r : ReplayResistance) (now : ℕ) (nonce k : Hash)
    → r.recent_nonces nonce ≡ none
    → let (r', verdict) = check r now nonce (record { get_fails = false; put_fails = false }) in
      (verdict ≡ ok true)
      × (r'.recent_nonces k ≡ (if hash_eq k nonce then some now else r.recent_nonces k))
unfolding check
check-fresh r now nonce k h = (ground arith, ground arith)

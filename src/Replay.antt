-- ===== src/Replay.antt =====
-- hub/src/replay_resistance.rs: the table of recent nonces. A time is in seconds; `now - then` of
-- times is cut off at 0 here, which the test for a large age does not see.
pub mod Window
use samizdat.Prelude.{
  ℕ, ◌-◌, ◌*◌, Bool, true, false, not, ◌&&◌, List, [], ◌∷◌, Option, none, some, ltb, if◌then◌else◌,
}
use samizdat.Hash.{Hash, hash_eq}

abbrev pub tolerated_age : ℕ
tolerated_age = 600

-- The table `RecentNonces`: the time at which a nonce was stored.
pub record ReplayResistance : Type 0 where
  pub recent_nonces : Hash → Option ℕ

-- Which of the two database calls of `check` fail.
pub record Faults : Type 0 where
  pub get_fails : Bool
  pub put_fails : Bool

-- `Result<bool, Error>`
pub data Verdict : Type 0 where
  ok : Bool → Verdict
  err : Verdict

abbrev pub is_some : Option ℕ → Bool
is_some none = false
is_some (some t) = true

-- `ReplayResistance::check`, at the time `now`.
unfoldable pub check : ReplayResistance → ℕ → Hash → Faults → ReplayResistance × Verdict
check r now nonce faults =
    if faults.get_fails
    then (r, err)
    else if is_some (r.recent_nonces nonce)
    then (r, ok false)
    else if faults.put_fails
    then (r, err)
    else (
      record { recent_nonces = λ k. if hash_eq k nonce then some now else r.recent_nonces k },
      ok true,
    )

-- One round of the clean-up loop, at the time `now`. A failing delete is ignored.
unfoldable pub expire : ℕ → Bool → Option ℕ → Option ℕ
expire now fails none = none
expire now fails (some then_) =
    if ltb (2 * tolerated_age) (now - then_) && not fails then none else some then_

unfoldable pub cleanup : ReplayResistance → ℕ → (Hash → Bool) → ReplayResistance
cleanup r now delete_fails = record {
  recent_nonces = λ k. expire now (delete_fails k) (r.recent_nonces k);
}

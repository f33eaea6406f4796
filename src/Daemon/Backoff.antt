-- ===== src/Daemon/Backoff.antt =====
-- The reconnect delay over any number of attempts (`_schedule_reconnect`).
use native.Mathlib.Nat.{pow-suc}
use native.Mathlib.Decide.{dec_le}
use relay_inner_display_scri.Base.{
  ℕ, zero, suc, ◌*◌, ◌^◌, ◌≤◌, ◌<◌, min, ◌≡◌, ap, arith, List, [], ◌∷◌, length, ◌∙◌,
}
use relay_inner_display_scri.Config.{AppConfig}
use relay_inner_display_scri.Daemon.State.{Daemon}
use relay_inner_display_scri.Daemon.Failures.{schedule_reconnect}

le-mul_pos : (m p : ℕ) → 0 < p → m ≤ m * p
le-mul_pos m p h = grind arith

mul_mono : (m x p : ℕ) → m ≤ x → m * p ≤ x * p
mul_mono m x p h = grind arith

doubled_within : (a p m : ℕ) → 0 < p → min (min (a * 2) m * p) m ≡ min (a * (p * 2)) m
doubled_within a p m h = elim (dec_le (a * 2) m) [
  | yes small ↦
      let e : min (a * 2) m ≡ a * 2 = omega arith in omega (arith, ap (λ (t : ℕ). t * p) e)
  | no large ↦
      let e : min (a * 2) m ≡ m = omega arith in
      omega (arith, ap (λ (t : ℕ). t * p) e, le-mul_pos m p h, mul_mono m (a * 2) p (omega arith))
]

module _ (c : AppConfig) where
  -- one reconnect after another, at the given times
  pub schedule_each : List ℕ → Daemon → Daemon
  schedule_each [] d = d
  schedule_each (now ∷ later) d = schedule_each later (schedule_reconnect c now d)

  two_pow_pos : (n : ℕ) → 0 < 2 ^ n
  two_pow_pos zero = omega arith
  two_pow_pos (suc n) = rw pow-suc (omega (arith, two_pow_pos n))

  -- After n reconnects in a row the delay is the first one doubled n times, capped at the
  -- configured maximum, if the first one is at most the maximum.
  pub delay-schedule_each :
      (times : List ℕ) (d : Daemon)
      → d.current_reconnect_delay_ms ≤ c.policy.reconnect_max_ms
      → (schedule_each times d).current_reconnect_delay_ms
        ≡ min (d.current_reconnect_delay_ms * 2 ^ length times) c.policy.reconnect_max_ms
  unfolding schedule_each schedule_reconnect
  delay-schedule_each [] d h = omega arith
  delay-schedule_each (now ∷ later) d h =
      delay-schedule_each later (schedule_reconnect c now d) (omega arith)
      ∙ doubled_within d.current_reconnect_delay_ms (2 ^ length later) c.policy.reconnect_max_ms
          (two_pow_pos (length later))
      ∙ rw pow-suc

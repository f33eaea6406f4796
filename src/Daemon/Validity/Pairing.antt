-- ===== src/Daemon/Validity/Pairing.antt =====
-- Validity through Moonlight pairing.
use relay_inner_display_scri.Base.{
  ℕ, String, true, false, Option, none, some, arith, ◌≡◌, is_some, refl, Bool-cases, inl, inr,
}
use relay_inner_display_scri.Exec.{Reason, Exn, os_error, ok, raise, method, ◌>>=◌}
use relay_inner_display_scri.Exec.Keeps.{Keeps, keeps_rules, Keeps-bind, Keeps-method, Keeps-raise}
use relay_inner_display_scri.Config.{AppConfig, ConsoleMoonlightConfig}
use relay_inner_display_scri.Services.{Services, Call}
use relay_inner_display_scri.Daemon.State.{Daemon, transition, set_last_error, call}
use relay_inner_display_scri.Daemon.PairState.{
  set_moonlight_pair_state, mark_moonlight_as_paired, clear_moonlight_pair_state,
}
use relay_inner_display_scri.Daemon.Pairing.{
  should_issue_pair, moonlight_pair_waiting_message, unreachable_caught,
  moonlight_host_is_reachable, retry_later, issue_pair, keep_waiting, wait_for_pin,
  reuses_existing_pairing, after_probe, pair_with, handle_moonlight_pairing, with_moonlight,
  no_moonlight_config,
}
use relay_inner_display_scri.Daemon.Validity.{IsValid}
use relay_inner_display_scri.Daemon.Validity.Failures.{call-IsValid}

module _ {c : AppConfig} where
  pub clear_moonlight_pair_state-IsValid :
      (d : Daemon) → IsValid c d → IsValid c (clear_moonlight_pair_state d)
  unfolding clear_moonlight_pair_state
  clear_moonlight_pair_state-IsValid d v = ground arith

  mark_moonlight_as_paired-IsValid :
      (d : Daemon) → IsValid c d → IsValid c (mark_moonlight_as_paired d)
  unfolding mark_moonlight_as_paired
  mark_moonlight_as_paired-IsValid d v = ground arith

  pub moonlight_pair_waiting_message-IsValid :
      (w : Services) → Keeps (IsValid c) (moonlight_pair_waiting_message w c)
  unfolding moonlight_pair_waiting_message
  moonlight_pair_waiting_message-IsValid w = record { at = λ s v. v }

module _ {c : AppConfig} (w : Services) (now : ℕ) where
  retry_later-IsValid :
      (r : Reason) (d : Daemon) → IsValid c d → IsValid c (retry_later w c now r d).1
  unfolding retry_later
  retry_later-IsValid r d v = ground arith

  issue_pair-IsValid :
      (m : ConsoleMoonlightConfig) (pin : String)
      → is_some c.console.moonlight ≡ true
      → (d : Daemon) → IsValid c d
      → IsValid c (issue_pair w c now m pin d).1
  unfolding issue_pair
  issue_pair-IsValid m pin configured d v = ground arith

  pub unreachable_caught-IsValid : (e : Exn) → Keeps (IsValid c) (unreachable_caught w c e)
  unfolding unreachable_caught
  unreachable_caught-IsValid (os_error _) = search keeps_rules
  unreachable_caught-IsValid _ = search keeps_rules

  reachable-IsValid : (h : String) (p : ℕ) → Keeps (IsValid c) (moonlight_host_is_reachable w c h p)
  unfolding moonlight_host_is_reachable
  reachable-IsValid h p = search (keeps_rules, call-IsValid, unreachable_caught-IsValid)

  keep_waiting-IsValid :
      (d : Daemon)
      → IsValid c d
      → should_issue_pair now d ≡ false
      → IsValid c (keep_waiting w c d).1
  unfolding keep_waiting should_issue_pair ◌>>=◌ transition set_last_error set_moonlight_pair_state
  keep_waiting-IsValid d v h = ground arith

  module _ (m : ConsoleMoonlightConfig) (configured : is_some c.console.moonlight ≡ true) where
    issue_with_pin : Keeps (IsValid c) (do
      pin ← call Call.generate_pin (λ t. ok (w.generate_pin t))
      method (issue_pair w c now m pin))
    issue_with_pin =
        Keeps-bind _ _ (call-IsValid _ _)
          (λ pin. Keeps-method _ (issue_pair-IsValid m pin configured))

    wait_for_pin-IsValid : Keeps (IsValid c) (wait_for_pin w c now m)
    unfolding wait_for_pin ◌>>=◌
    wait_for_pin-IsValid = record {
      at = λ d v. elim (Bool-cases (should_issue_pair now d)) [
        | inl issue ↦ rw issue (issue_with_pin.at d v)
        | inr open_still ↦ rw open_still (keep_waiting-IsValid d v open_still)
      ];
    }

    reuses-IsValid : Keeps (IsValid c) (reuses_existing_pairing w c m)
    unfolding reuses_existing_pairing
    reuses-IsValid = search (keeps_rules, call-IsValid)

    after_probe-IsValid : (s : String) → Keeps (IsValid c) (after_probe w c now m s)
    unfolding after_probe
    after_probe-IsValid s =
        search
          (
            keeps_rules, call-IsValid, mark_moonlight_as_paired-IsValid, retry_later-IsValid,
            reuses-IsValid, wait_for_pin-IsValid,
          )
          depth 9

    no_delay-IsValid :
        (d : Daemon) → IsValid c d → IsValid c (record d { next_reconnect_at = none })
    no_delay-IsValid d v = ground arith

    pair_with-IsValid : Keeps (IsValid c) (pair_with w c now m)
    unfolding pair_with
    pair_with-IsValid =
        search
          (
            keeps_rules, call-IsValid, reachable-IsValid, retry_later-IsValid, no_delay-IsValid,
            after_probe-IsValid,
          )
          depth 9

  with_config :
      (o : Option ConsoleMoonlightConfig)
      → o ≡ c.console.moonlight
      → Keeps (IsValid c) (with_moonlight o (pair_with w c now) (raise no_moonlight_config))
  with_config none e = Keeps-raise _
  with_config (some m) e = pair_with-IsValid m (rw (← e))

  pub handle_moonlight_pairing-IsValid : Keeps (IsValid c) (handle_moonlight_pairing w c now)
  unfolding handle_moonlight_pairing
  handle_moonlight_pairing-IsValid = with_config c.console.moonlight refl

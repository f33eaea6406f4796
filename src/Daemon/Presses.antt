-- ===== src/Daemon/Presses.antt =====
-- How many commands the power button may cause.
pub mod Burst
use relay_inner_display_scri.Base.{
  ℕ, zero, suc, ◌+◌, ◌-◌, ◌≤◌, ◌<◌, ◌≡◌, ◌≢◌, refl, ap, ◌⊎◌, inl, inr, Bool, true, false, ◌||◌,
  Option, none, some, List, [], ◌∷◌, arith, String, Bool-cases, lt_ℕ, ltb,
}
use relay_inner_display_scri.Exec.{
  Outcome, ok, raised, Exn, proxmox_command_error, Exec, ◌>>=◌, try_then, continue, handled, modify,
  raise,
}
use relay_inner_display_scri.Config.{AppConfig}
use relay_inner_display_scri.Models.{mark_power_button_press}
use relay_inner_display_scri.Services.{Call, Trace, Services}
use relay_inner_display_scri.Daemon.State.{Daemon, persist_state, call, set_last_error}
use relay_inner_display_scri.Daemon.Failures.{
  refresh_vm_status, record_proxmox_failure, enter_degraded, record_vm_power_state,
  clear_proxmox_failures,
}
use relay_inner_display_scri.Daemon.PowerButton.{
  is_running, is_stopped, elapsed_ms, refresh_power_button_action, within_power_button_debounce,
  act_on_press, press_with_status, handle_power_button_press, handle_presses, press_failed,
  press_submitted, settle, command_failed, submit, ignore,
}

abbrev pub count_command : Call → ℕ → ℕ
count_command (Call.start_vm _) n = suc n
count_command (Call.shutdown_vm _ _) n = suc n
count_command _ n = n

-- the number of `qm start` and `qm shutdown` calls of a history
pub commands : Trace → ℕ
commands [] = 0
commands (k ∷ t) = count_command k (commands t)

module _ (w : Services) (c : AppConfig) (now : ℕ) where
  pub refresh-trace :
      (s : String) (d : Daemon) → (refresh_power_button_action w c now s d).trace ≡ d.trace
  unfolding refresh_power_button_action
  refresh-trace s d = ground arith

  pub refresh-accepted :
      (s : String) (d : Daemon)
      → (refresh_power_button_action w c now s d).last_power_button_accepted_at
        ≡ d.last_power_button_accepted_at
  unfolding refresh_power_button_action
  refresh-accepted s d = ground arith

  after_command :
      (action : String) (r : Outcome Unit) (d : Daemon)
      → (handled r
          (command_failed w c now action)
          (λ _. modify (press_submitted now action))
          d).1.trace
        ≡ d.trace
  unfolding command_failed press_failed press_submitted modify raise
  after_command action (ok _) d = refl
  after_command action (raised (proxmox_command_error r)) d = refl
  after_command action (raised _) d = refl

  pub submit-commands :
      (action : String) (k : Call) (answer : Trace → Outcome Unit) (d : Daemon)
      → commands (submit w c now action (call k answer) d).1.trace
        ≡ count_command k (commands d.trace)
  unfolding submit try_then call commands
  submit-commands action k answer d =
      ap commands (after_command action (answer d.trace) (record d { trace = k ∷ d.trace }))

  pub ignore-trace : (r : String) (d : Daemon) → (ignore w c now r d).1.trace ≡ d.trace
  unfolding ignore modify persist_state
  ignore-trace r d = refl

  abbrev Causes : Daemon → Daemon → Type 0 → Type 0
  Causes d d' P =
      (commands d'.trace ≡ commands d.trace) ⊎ ((commands d'.trace ≡ commands d.trace + 1) × P)

  act_causes :
      (s : String) (d : Daemon)
      → Causes d (act_on_press w c now s d).1 ((is_stopped s || is_running s) ≡ true)
  unfolding act_on_press
  act_causes s d = elim (Bool-cases (is_stopped s)) [
    | inl stopped ↦ rw stopped (inr (rw (submit-commands _ _ _ d) (omega arith), refl))
    | inr up ↦ rw up (elim (Bool-cases (is_running s)) [
      | inl running ↦ rw running (inr (rw (submit-commands _ _ _ d) (omega arith), refl))
      | inr other ↦ rw other (inl (ap commands (ignore-trace _ d)))
    ])
  ]

  -- A press with a known status causes no `qm start` or `qm shutdown`, or it causes one, and
  -- then no action is in flight any more, the debounce time since the last accepted press is
  -- over, and the VM is stopped or running.
  pub press_causes :
      (s : String) (d : Daemon)
      → (commands (press_with_status w c now (some s) d).1.trace ≡ commands d.trace)
        ⊎ ((commands (press_with_status w c now (some s) d).1.trace ≡ commands d.trace + 1)
            × ((refresh_power_button_action w c now s d).state.power_button_action_in_flight
                ≡ false)
            × (within_power_button_debounce w c now d ≡ false)
            × ((is_stopped s || is_running s) ≡ true))
  unfolding press_with_status ◌>>=◌ within_power_button_debounce
  press_causes s d =
      let d' = refresh_power_button_action w c now s d in
      ground (
        arith,
        refresh-trace s d,
        refresh-accepted s d,
        act_causes s d',
        ignore-trace "ignored_in_flight" d',
        ignore-trace "ignored_debounced" d',
      )

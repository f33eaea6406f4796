-- ===== src/Daemon/PowerButton.antt =====
-- The host's power button: presses are turned into `qm start` and `qm shutdown`, with a debounce
-- and one action in flight at a time.
use relay_inner_display_scri.Base.{
  ℕ, zero, suc, ◌-◌, ◌*◌, String, Bool, false, not, ◌&&◌, ◌||◌, Option, none, some, List, [], ◌∷◌,
  leb, if◌then◌else◌, is_some, ℤ, pos, negate_ℕ, lt_ℕ, ge_ℕ, one_of,
}
use relay_inner_display_scri.Exec.{
  Reason, power_button_read_failed, Exn, proxmox_command_error, os_error, power_button_error, Exec,
  pure, raise, gets, modify, ◌>>=◌, ◌>>◌, try_then,
}
use relay_inner_display_scri.Config.{AppConfig}
use relay_inner_display_scri.Models.{mark_power_button_press}
use relay_inner_display_scri.Message.{Message}
use relay_inner_display_scri.Services.{Call, Services}
use relay_inner_display_scri.Daemon.State.{Daemon, persist_state, call}
use relay_inner_display_scri.Daemon.Failures.{refresh_vm_status, clear_proxmox_failures}
use relay_inner_display_scri.Daemon.Display.{is_text}
use relay_inner_display_scri.Daemon.PairState.{set_startup_error}

unfoldable pub is_running : String → Bool
is_running vm_status = one_of vm_status ("running" ∷ "paused" ∷ [])

unfoldable pub is_stopped : String → Bool
is_stopped vm_status = one_of vm_status ("stopped" ∷ "shutdown" ∷ [])

-- `int((end - start).total_seconds() * 1000)`, truncated towards zero
unfoldable pub elapsed_ms : Services → ℕ → ℕ → ℤ
elapsed_ms w start end =
    if leb start end
    then pos (w.truncated_ms (end - start))
    else negate_ℕ (w.truncated_ms (start - end))

abbrev elapsed_at_least : Services → Option ℕ → ℕ → ℕ → Bool
elapsed_at_least w none now limit = false
elapsed_at_least w (some start) now limit = ge_ℕ (elapsed_ms w start now) limit

abbrev pub button_result : String → Daemon → Daemon
button_result r d = record d { state = record d.state { last_power_button_result = some r } }

-- the action in flight has come to an end
unfoldable pub settle : String → Daemon → Daemon
settle result d = record d {
  power_button_action_started_at = none;
  state = record d.state {
    power_button_action_in_flight = false;
    last_power_button_result = some result;
  };
}

unfoldable pub refresh_power_button_action : Services → AppConfig → ℕ → String → Daemon → Daemon
unfolding settle elapsed_ms
refresh_power_button_action w c now vm_status d =
    let waited = λ (limit : ℕ). elapsed_at_least w d.power_button_action_started_at now limit in
    let timeout = c.policy.shutdown_timeout_s * 1000 in
    if not d.state.power_button_action_in_flight
    then d
    else if is_text d.state.last_power_button_action "start"
    then (if is_running vm_status
        then settle "completed" d
        else if waited c.input.debounce_ms && is_stopped vm_status
        then settle "stalled" d
        else if waited timeout && not (is_stopped vm_status)
        then settle "timed_out" d
        else d)
    else if is_text d.state.last_power_button_action "shutdown"
    then (if is_stopped vm_status
        then settle "completed" d
        else if waited timeout && not (is_stopped vm_status)
        then settle "timed_out" d
        else d)
    else d

abbrev within : Services → AppConfig → ℕ → Option ℕ → Bool
within w c now none = false
within w c now (some accepted) = lt_ℕ (elapsed_ms w accepted now) c.input.debounce_ms

unfoldable pub within_power_button_debounce : Services → AppConfig → ℕ → Daemon → Bool
unfolding elapsed_ms
within_power_button_debounce w c now d = within w c now d.last_power_button_accepted_at

unfoldable pub press_failed : ℕ → String → Reason → Daemon → Daemon
unfolding persist_state
press_failed now action reason d = persist_state (record d {
  last_power_button_accepted_at = some now;
  state = record (mark_power_button_press now action "failed" d.state) { last_error = some reason };
})

unfoldable pub press_submitted : ℕ → String → Daemon → Daemon
unfolding persist_state clear_proxmox_failures
press_submitted now action d =
    let d₁ = clear_proxmox_failures d in
    persist_state (record d₁ {
      last_power_button_accepted_at = some now;
      power_button_action_started_at = some now;
      state = record (mark_power_button_press now action "submitted" d₁.state) {
        last_error = none;
      };
    })

module _ (w : Services) (c : AppConfig) (now : ℕ) where
  unfoldable pub command_failed : String → Exn → Exec Daemon Unit
  command_failed action (proxmox_command_error reason) = modify (press_failed now action reason)
  command_failed action e = raise e

  unfoldable pub submit : String → Exec Daemon Unit → Exec Daemon Unit
  unfolding command_failed
  submit action command =
      try_then command (command_failed action) (λ _. modify (press_submitted now action))

  unfoldable pub ignore : String → Exec Daemon Unit
  ignore result = modify (λ d. persist_state (button_result result d))

  unfoldable pub start_command : Exec Daemon Unit
  start_command = call (Call.start_vm c.target.vmid) (λ t. w.start_vm t c.target.vmid)

  unfoldable pub shutdown_command : Exec Daemon Unit
  shutdown_command =
      call (Call.shutdown_vm c.target.vmid c.policy.shutdown_timeout_s)
        (λ t. w.shutdown_vm t c.target.vmid c.policy.shutdown_timeout_s)

  unfoldable pub act_on_press : String → Exec Daemon Unit
  unfolding submit ignore start_command shutdown_command
  act_on_press vm_status =
      if is_stopped vm_status
      then submit c.policy.power_button_action_when_stopped start_command
      else if is_running vm_status
      then submit c.policy.power_button_action_when_running shutdown_command
      else ignore "ignored_non_actionable"

  unfoldable pub press_with_status : Option String → Exec Daemon Unit
  unfolding ignore
  press_with_status none = ignore "status_failed"
  press_with_status (some vm_status) = do
    modify (refresh_power_button_action w c now vm_status)
    in_flight ← gets (λ (d : Daemon). d.state.power_button_action_in_flight)
    debounced ← gets (within_power_button_debounce w c now)
    if in_flight
        then ignore "ignored_in_flight"
        else if debounced
        then ignore "ignored_debounced"
        else act_on_press vm_status

  unfoldable pub handle_power_button_press : Exec Daemon Unit
  unfolding press_with_status
  handle_power_button_press = do answer ← refresh_vm_status w c now; press_with_status answer.0

  -- `for _ in range(press_count)`
  unfoldable pub handle_presses : ℕ → Exec Daemon Unit
  handle_presses zero = pure tt
  handle_presses (suc n) = do handle_power_button_press; handle_presses n

  unfoldable pub read_failed : Reason → Exec Daemon Unit
  read_failed reason =
      modify (λ d. persist_state (set_startup_error (power_button_read_failed reason) d))

  unfoldable pub poll_failed : Exn → Exec Daemon Unit
  unfolding read_failed
  poll_failed (os_error reason) = read_failed reason
  poll_failed (power_button_error reason) = read_failed reason
  poll_failed e = raise e

  -- `_poll_power_button_source`, which returns no messages on any path
  unfoldable pub poll_power_button_source : Exec Daemon (List Message)
  unfolding poll_failed
  poll_power_button_source = do
    idle ← gets (λ (d : Daemon). is_some d.startup_error || not d.has_power_button_source)
    if not c.input.forward_power_button || idle
        then pure []
        else do try_then (call Call.poll_presses w.poll_presses) poll_failed handle_presses; pure []

-- ===== src/Daemon/StateFile.antt =====
-- The state file against the state in memory, after each entry point of the daemon.
pub mod PowerButton
pub mod Session
pub mod Tick
use relay_inner_display_scri.Base.{
  ℕ, zero, suc, ◌≡◌, refl, ap, Bool, true, false, Option, none, some, List, arith, String, ◌==◌,
  not, ◌&&◌, Bool-cases, inl, inr,
}
use relay_inner_display_scri.Exec.{
  Reason, Exn, proxmox_command_error, os_error, power_button_error, runtime_validation_error,
  vnc_configuration_error, vnc_endpoint_unavailable, Outcome, ok, Exec, pure, modify, method, ◌>>=◌,
  try_then, continue, handled, raised,
}
use relay_inner_display_scri.Exec.Ends.{
  Ends, Ends-pure, Ends-raise, Ends-gets, Ends-method, Ends-if, Ends-modify, Ends-bind, Ends-try,
}
use relay_inner_display_scri.Config.{AppConfig}
use relay_inner_display_scri.Models.{SessionState}
use relay_inner_display_scri.Message.{
  Message, Event, session_ready, console_started, console_exited, display_power_applied,
  session_error,
}
use relay_inner_display_scri.Services.{Call, Trace, Services}
use relay_inner_display_scri.Daemon.State.{Daemon, transition, persist_state, call}
use relay_inner_display_scri.Daemon.Failures.{
  enter_degraded, record_proxmox_failure, refresh_vm_status, status_failed, status_read,
}
use relay_inner_display_scri.Daemon.PairState.{set_startup_error}
use relay_inner_display_scri.Daemon.PowerButton.{
  press_failed, press_submitted, command_failed, submit, ignore, start_command, shutdown_command,
  act_on_press, press_with_status, handle_power_button_press, handle_presses, read_failed,
  poll_failed, poll_power_button_source,
}
use relay_inner_display_scri.Daemon.Session.{
  is_blocked, then_persist, on_session_disconnected, await_console, await_pairing, await_vm,
  status_unknown, ready_with_status, on_session_ready, on_console_started, on_display_power_applied,
  pairing_ui_exited, console_lost, on_console_exited, on_session_error, handle_session_event,
}
use relay_inner_display_scri.Daemon.Tick.{
  vm_off, vm_unsettled, preparation_failed, unavailable_for_now, launch_failed, launched, launch,
  pairing_failed, pair_then, connect, keep_showing, vm_on, tick_for_vm, tick_with_status, tick,
}

pub record IsSynced (d : Daemon) : Type 0 where
  pub written : d.state_file ≡ some d.state
  pub ready_written : d.state.session_ready ≡ d.session_ready

-- any daemon, and the postcondition that says nothing of the value
abbrev pub Any : Daemon → Type 0
Any d = Unit

abbrev pub Now : {A : Type 0} → A → Daemon → Type 0
Now a d = IsSynced d

abbrev pub Then : {A : Type 0} → A → Daemon → Type 0
Then a d = Unit

pub persist_state-IsSynced : (d : Daemon) → IsSynced (persist_state d)
unfolding persist_state
persist_state-IsSynced d = record { written = refl; ready_written = refl }

pub enter_degraded-IsSynced : (r : Reason) (d : Daemon) → IsSynced (enter_degraded r d).1
unfolding enter_degraded
enter_degraded-IsSynced r d = record { written = refl; ready_written = refl }

pub failure-IsSynced :
    (now : ℕ) (r : Reason) (d : Daemon) → IsSynced (record_proxmox_failure now r d).1
unfolding record_proxmox_failure enter_degraded
failure-IsSynced now r d = ground arith

-- no status was read, and the failure has been written
abbrev pub FailureWritten : Option String × List Message → Daemon → Type 0
FailureWritten (none, _) d = IsSynced d
FailureWritten (some _, _) d = Unit

module _ (w : Services) (c : AppConfig) (now : ℕ) where
  pub Any-call :
      {A : Type 0} (k : Call) (answer : Trace → Outcome A) → Ends Any (λ _. Any) (call k answer)
  Any-call k answer = record { at = λ s h a e. tt }

  pub IsSynced-call :
      {A : Type 0} (k : Call) (answer : Trace → Outcome A) (d : Daemon)
      → IsSynced d
      → IsSynced (call k answer d).1
  unfolding call
  IsSynced-call k answer d s = record { written = s.written; ready_written = s.ready_written }

  status_failed-Ends : (e : Exn) → Ends Any FailureWritten (status_failed w c now e)
  unfolding status_failed
  status_failed-Ends (proxmox_command_error r) =
      Ends-bind _ _ (Ends-method {Q = Now} _ (λ d _. failure-IsSynced now r d))
        (λ a. Ends-pure _ (λ d s. s))
  status_failed-Ends _ = Ends-raise _

  status_read-Ends : (s : String) → Ends Any FailureWritten (status_read w c now s)
  unfolding status_read
  status_read-Ends s =
      Ends-bind {R = Then} _ _ (Ends-modify _ (λ d _. tt))
        (λ _. Ends-bind {R = Then} _ _ (Ends-modify _ (λ d _. tt)) (λ _. Ends-pure _ (λ d _. tt)))

  pub refresh-Ends : Ends Any FailureWritten (refresh_vm_status w c now)
  unfolding refresh_vm_status
  refresh-Ends =
      Ends-try {R = Then} Any _ _ _ (λ d _. tt) (Any-call _ _) status_failed-Ends status_read-Ends

  pub ignore-Ends : (r : String) → Ends Any Now (ignore w c now r)
  unfolding ignore
  ignore-Ends r = Ends-modify _ (λ d _. persist_state-IsSynced _)

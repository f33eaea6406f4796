-- ===== src/Daemon/Validity/Failures.antt =====
-- Validity through the writes that every method shares, failures and the display policy.
use relay_inner_display_scri.Base.{ℕ, String, Option, arith}
use relay_inner_display_scri.Exec.{Reason, Exn, proxmox_command_error, Outcome}
use relay_inner_display_scri.Exec.Keeps.{Keeps, keeps_rules}
use relay_inner_display_scri.Config.{AppConfig}
use relay_inner_display_scri.Models.{SessionState, mark_power_state_since}
use relay_inner_display_scri.Services.{Call, Trace, Services}
use relay_inner_display_scri.Daemon.State.{
  Daemon, transition, persist_state, set_last_error, drop_console, call,
}
use relay_inner_display_scri.Daemon.Failures.{
  enter_degraded, record_proxmox_failure, clear_proxmox_failures, schedule_reconnect,
  record_vm_power_state, refresh_vm_status, status_failed, status_read,
}
use relay_inner_display_scri.Daemon.Display.{
  desired_display_power_intent, update_display_power_intent,
}
use relay_inner_display_scri.Daemon.Validity.{IsValid}

module _ {c : AppConfig} where
  pub transition-IsValid :
      (s : SessionState) (d : Daemon) → IsValid c d → IsValid c (transition s d)
  unfolding transition
  transition-IsValid s d v = ground arith

  pub persist_state-IsValid : (d : Daemon) → IsValid c d → IsValid c (persist_state d)
  unfolding persist_state
  persist_state-IsValid d v = ground arith

  pub set_last_error-IsValid :
      (r : Option Reason) (d : Daemon) → IsValid c d → IsValid c (set_last_error r d)
  unfolding set_last_error
  set_last_error-IsValid r d v = ground arith

  pub drop_console-IsValid : (d : Daemon) → IsValid c d → IsValid c (drop_console d)
  unfolding drop_console
  drop_console-IsValid d v = ground arith

  pub call-IsValid :
      {A : Type 0} (k : Call) (answer : Trace → Outcome A) → Keeps (IsValid c) (call k answer)
  unfolding call
  call-IsValid k answer = record { at = λ s v. ground arith }

  pub enter_degraded-IsValid :
      (r : Reason) (d : Daemon) → IsValid c d → IsValid c (enter_degraded r d).1
  unfolding enter_degraded
  enter_degraded-IsValid r d v = ground arith

  pub clear_proxmox_failures-IsValid :
      (d : Daemon) → IsValid c d → IsValid c (clear_proxmox_failures d)
  unfolding clear_proxmox_failures
  clear_proxmox_failures-IsValid d v = ground arith

  pub schedule_reconnect-IsValid :
      (now : ℕ) (d : Daemon) → IsValid c d → IsValid c (schedule_reconnect c now d)
  unfolding schedule_reconnect
  schedule_reconnect-IsValid now d v = ground arith

  pub record_vm_power_state-IsValid :
      (s : String) (now : ℕ) (d : Daemon) → IsValid c d → IsValid c (record_vm_power_state s now d)
  unfolding record_vm_power_state mark_power_state_since
  record_vm_power_state-IsValid s now d v = ground arith

  pub update_display_power_intent-IsValid :
      (now : ℕ) (d : Daemon) → IsValid c d → IsValid c (update_display_power_intent c now d).1
  unfolding update_display_power_intent desired_display_power_intent
  update_display_power_intent-IsValid now d v = ground arith

  pub record_proxmox_failure-IsValid :
      (now : ℕ) (r : Reason) (d : Daemon)
      → IsValid c d
      → IsValid c (record_proxmox_failure now r d).1
  unfolding record_proxmox_failure enter_degraded
  record_proxmox_failure-IsValid now r d v = ground arith

module _ {c : AppConfig} (w : Services) (now : ℕ) where
  status_failed_kept : (e : Exn) → Keeps (IsValid c) (status_failed w c now e)
  unfolding refresh_vm_status
  status_failed_kept (proxmox_command_error reason) =
      search (keeps_rules, record_proxmox_failure-IsValid)
  status_failed_kept _ = search keeps_rules

  status_read_kept : (s : String) → Keeps (IsValid c) (status_read w c now s)
  unfolding refresh_vm_status
  status_read_kept s =
      search (keeps_rules, clear_proxmox_failures-IsValid, record_vm_power_state-IsValid)

  pub refresh_vm_status-IsValid : Keeps (IsValid c) (refresh_vm_status w c now)
  unfolding refresh_vm_status
  refresh_vm_status-IsValid =
      search (keeps_rules, call-IsValid, status_failed_kept, status_read_kept)

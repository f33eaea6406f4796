-- ===== src/Daemon/Failures.antt =====
-- Degraded mode, the window of Proxmox failures, the reconnect delay and the VM's power state.
use relay_inner_display_scri.Base.{
  ℕ, ◌+◌, ◌*◌, min, String, Bool, not, ◌||◌, Option, none, some, List, [], ◌∷◌, ◌++◌, leb,
  if◌then◌else◌, keep_if, length, is_some, ◌==◌, one_of, ◌&&◌,
}
use relay_inner_display_scri.Exec.{
  Reason, Exn, proxmox_command_error, Exec, pure, raise, method, modify, ◌>>=◌, ◌>>◌, try_then,
}
use relay_inner_display_scri.Config.{AppConfig}
use relay_inner_display_scri.Models.{
  SessionState, degraded, waiting_for_vm, display_sleeping, mark_power_state_since,
}
use relay_inner_display_scri.Message.{Message, disconnect_console, waiting}
use relay_inner_display_scri.Services.{Call, Services}
use relay_inner_display_scri.Daemon.State.{
  Daemon, transition, persist_state, set_last_error, drop_console, call,
}

abbrev pub display_on_vm_states : List String
display_on_vm_states = "running" ∷ "paused" ∷ "suspended" ∷ []

abbrev pub display_off_vm_states : List String
display_off_vm_states = "stopped" ∷ "shutdown" ∷ []

unfoldable pub vm_can_show_console : String → Bool
vm_can_show_console vm_status = one_of vm_status display_on_vm_states

unfoldable pub vm_is_off : String → Bool
vm_is_off vm_status = one_of vm_status display_off_vm_states

abbrev pub proxmox_failure_limit : ℕ
proxmox_failure_limit = 5

-- two minutes, in microseconds
abbrev pub proxmox_failure_window : ℕ
proxmox_failure_window = 120_000_000

unfoldable pub enter_degraded : Reason → Daemon → List Message × Daemon
unfolding transition persist_state set_last_error drop_console
enter_degraded reason d =
    let had_console = d.console_running || is_some d.console_pid in
    let d₁ = set_last_error (some reason) (drop_console d) in
    let d₂ = record d₁ { state = record d₁.state { degraded_reason = some reason } } in
    let d₃ = persist_state (transition degraded d₂) in
    (
      (if had_console
          then disconnect_console "control_error" ∷ waiting "degraded" ∷ []
          else waiting "degraded" ∷ []),
      d₃,
    )

unfoldable pub recent_failures : ℕ → List ℕ → List ℕ
recent_failures now stamps = keep_if (λ (t : ℕ). leb now (t + proxmox_failure_window)) stamps

unfoldable pub record_proxmox_failure : ℕ → Reason → Daemon → List Message × Daemon
unfolding persist_state set_last_error recent_failures
record_proxmox_failure now reason d =
    let stamps = recent_failures now d.proxmox_failure_timestamps ++ now ∷ [] in
    let d₁ = set_last_error (some reason) (record d { proxmox_failure_timestamps = stamps }) in
    if leb proxmox_failure_limit (length stamps)
    then enter_degraded reason d₁
    else ([], persist_state d₁)

unfoldable pub clear_proxmox_failures : Daemon → Daemon
clear_proxmox_failures d = record d { proxmox_failure_timestamps = [] }

-- `now + timedelta(milliseconds=delay_ms)`
-- for a delay that a `timedelta` can hold
unfoldable pub schedule_reconnect : AppConfig → ℕ → Daemon → Daemon
schedule_reconnect c now d = record d {
  next_reconnect_at = some (now + d.current_reconnect_delay_ms * 1000);
  current_reconnect_delay_ms = min (d.current_reconnect_delay_ms * 2) c.policy.reconnect_max_ms;
}

unfoldable pub record_vm_power_state : String → ℕ → Daemon → Daemon
record_vm_power_state vm_status now d =
    let changed =
      not (d.state.vm_power_state == vm_status) || not (is_some d.power_state_since_at) in
    let d₁ =
      if changed
      then record d { power_state_since_at = some now; state = mark_power_state_since now d.state }
      else d in
    record d₁ { state = record d₁.state { vm_power_state = vm_status } }

-- `_refresh_vm_status`: the status, or the messages of a failure. Only a `ProxmoxCommandError`
-- is handled.
module _ (w : Services) (c : AppConfig) (now : ℕ) where
  unfoldable pub status_failed : Exn → Exec Daemon (Option String × List Message)
  status_failed (proxmox_command_error reason) = do
    actions ← method (record_proxmox_failure now reason)
    pure (none, actions)
  status_failed e = raise e

  unfoldable pub status_read : String → Exec Daemon (Option String × List Message)
  status_read vm_status = do
    modify clear_proxmox_failures
    modify (record_vm_power_state vm_status now)
    pure (some vm_status, [])

  unfoldable pub refresh_vm_status : Exec Daemon (Option String × List Message)
  unfolding status_failed status_read
  refresh_vm_status =
      try_then (call (Call.get_vm_status c.target.vmid) (λ t. w.get_vm_status t c.target.vmid))
        status_failed status_read

unfoldable pub waiting_session_state : Daemon → SessionState
waiting_session_state d =
    if d.state.display_power_intent == "off" && d.state.display_power_applied == "off"
    then display_sleeping
    else waiting_for_vm

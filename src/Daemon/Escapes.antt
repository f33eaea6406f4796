-- ===== src/Daemon/Escapes.antt =====
-- Two behaviours of the daemon at the edge of degraded mode.
use relay_inner_display_scri.Base.{
  ℕ, ◌≡◌, refl, false, none, [], String, Bool, true, ◌==◌, ◌&&◌, if◌then◌else◌,
}
use relay_inner_display_scri.Exec.{
  Reason, Exn, timeout_expired, Outcome, ok, raised, Exec, ◌>>=◌, try_then, continue,
}
use relay_inner_display_scri.Config.{AppConfig}
use relay_inner_display_scri.Models.{SessionState, waiting_for_vm, display_sleeping}
use relay_inner_display_scri.Services.{Services}
use relay_inner_display_scri.Daemon.State.{persist_state, transition, Daemon, call}
use relay_inner_display_scri.Daemon.Failures.{
  refresh_vm_status, status_failed, waiting_session_state,
}
use relay_inner_display_scri.Daemon.Session.{
  is_degraded, is_blocked, shows_console, on_display_power_applied,
}
use relay_inner_display_scri.Daemon.PowerButton.{poll_power_button_source}
use relay_inner_display_scri.Daemon.Tick.{tick}

module _ (w : Services) (c : AppConfig) (now : ℕ) (r : Reason) (d : Daemon) where
  refresh_raises :
      w.get_vm_status d.trace c.target.vmid ≡ raised (timeout_expired r)
      → (refresh_vm_status w c now d).0 ≡ raised (timeout_expired r)
  unfolding refresh_vm_status try_then call status_failed
  refresh_raises e = rw e refl

  quiet_poll :
      c.input.forward_power_button ≡ false → poll_power_button_source w c now d ≡ (ok [], d)
  unfolding poll_power_button_source ◌>>=◌
  quiet_poll e = rw e refl

  continue_raises :
      {A B : Type 0} (m : Outcome A) (f : A → Exec Daemon B) (e : Exn) (s : Daemon)
      → m ≡ raised e
      → (continue m f s).0 ≡ raised e
  continue_raises m f e s h = rw h refl

  -- Where the daemon is not blocked and forwards no power button, a `qm status` that runs into
  -- its timeout is raised out of the tick.
  pub timeout_escapes :
      c.input.forward_power_button ≡ false
      → is_blocked d ≡ false
      → w.get_vm_status d.trace c.target.vmid ≡ raised (timeout_expired r)
      → (tick w c now d).0 ≡ raised (timeout_expired r)
  unfolding tick ◌>>=◌
  timeout_escapes quiet free e =
      rw (quiet_poll quiet, free)
        (continue_raises (refresh_vm_status w c now d).0 _ _ _ (refresh_raises e))

undegraded :
    (b : Bool) (d : Daemon)
    → let s : SessionState = if b then display_sleeping else waiting_for_vm in
      (is_degraded (persist_state (transition s d)).state.session_state ≡ false)
      × ((persist_state (transition s d)).state.degraded_reason ≡ none)
unfolding persist_state transition
undegraded true d = (refl, refl)
undegraded false d = (refl, refl)

-- With no console running and a VM that cannot show one, the report of an applied display power
-- leaves the daemon in a state that is not degraded, with no degraded reason.
pub applied_undegrades :
    (w : Services) (c : AppConfig) (applied : String) (d : Daemon)
    → d.console_running ≡ false
    → shows_console d ≡ false
    → (is_degraded (on_display_power_applied w c applied d).state.session_state ≡ false)
      × ((on_display_power_applied w c applied d).state.degraded_reason ≡ none)
unfolding on_display_power_applied waiting_session_state transition persist_state
applied_undegrades w c applied d gone off =
    rw (gone, off)
      (undegraded (d.state.display_power_intent == "off" && applied == "off")
        (record d { state = record d.state { display_power_applied = applied } }))

-- ===== src/Daemon/Session.antt =====
-- What the daemon does when the session connects, reports, or goes away.
use relay_inner_display_scri.Base.{
  ℕ, ℤ, String, Bool, true, false, not, ◌&&◌, ◌||◌, Option, none, some, List, [], ◌∷◌, ◌++◌,
  if◌then◌else◌, is_some, or_else, ◌==◌,
}
use relay_inner_display_scri.Exec.{
  Reason, console_exited_unexpectedly, Exec, pure, gets, method, modify, ◌>>=◌, ◌>>◌,
}
use relay_inner_display_scri.Config.{AppConfig}
use relay_inner_display_scri.Models.{
  SessionState, degraded, waiting_for_session, waiting_for_pairing, showing_console,
  reconnecting_console, requesting_console, mark_console_exit, is_pending,
}
use relay_inner_display_scri.Message.{
  Message, waiting, Event, session_ready, console_started, console_exited, display_power_applied,
  session_error,
}
use relay_inner_display_scri.Services.{Services}
use relay_inner_display_scri.Daemon.State.{
  Daemon, transition, persist_state, set_last_error, drop_console,
}
use relay_inner_display_scri.Daemon.Failures.{
  vm_can_show_console, enter_degraded, schedule_reconnect, refresh_vm_status, waiting_session_state,
}
use relay_inner_display_scri.Daemon.Display.{reapply_display_power}
use relay_inner_display_scri.Daemon.Pairing.{
  moonlight_pairing_pending, moonlight_pair_waiting_message,
}

-- `self.startup_error is not None or self.state.degraded_reason is not None`
abbrev pub is_blocked : Daemon → Bool
is_blocked d = is_some d.startup_error || is_some d.state.degraded_reason

abbrev pub is_degraded : SessionState → Bool
is_degraded degraded = true
is_degraded _ = false

abbrev pub then_persist : SessionState → Daemon → Daemon
then_persist s d = persist_state (transition s d)

-- `self._transition(self._waiting_session_state())`
abbrev pub wait_for_vm : Daemon → Daemon
wait_for_vm d = transition (waiting_session_state d) d

abbrev pub shows_console : Daemon → Bool
shows_console d = vm_can_show_console d.state.vm_power_state

unfoldable pub on_session_disconnected : Daemon → Daemon
on_session_disconnected d =
    let d₁ = record (drop_console d) {
      session_ready = false;
      moonlight_pair_launch_pending = false;
    } in
    then_persist (if is_blocked d₁ then degraded else waiting_for_session) d₁

unfoldable pub connect_session : Daemon → Daemon
connect_session d = record (drop_console d) {
  session_ready = true;
  moonlight_pair_launch_pending = false;
}

module _ (w : Services) (c : AppConfig) where
  -- the VM can show a console: the state and the message of a session that waits for it
  unfoldable pub await_console : List Message → Daemon → List Message × Daemon
  await_console responses d =
      if is_some d.next_reconnect_at
      then (responses ++ waiting "reconnecting" ∷ [], then_persist reconnecting_console d)
      else (responses ++ waiting "connecting" ∷ [], then_persist requesting_console d)

  unfoldable pub await_pairing : List Message → Exec Daemon (List Message)
  await_pairing responses = do
    modify (then_persist waiting_for_pairing)
    message ← moonlight_pair_waiting_message w c
    pure (responses ++ message ∷ [])

  unfoldable pub await_vm : List Message → Daemon → List Message × Daemon
  await_vm responses d = (responses ++ waiting "vm_stopped" ∷ [], persist_state (wait_for_vm d))

  unfoldable pub status_unknown : List Message → Daemon → List Message × Daemon
  unfolding await_vm
  status_unknown responses d =
      if is_degraded d.state.session_state
      then (responses ++ waiting "degraded" ∷ [], d)
      else await_vm responses d

  unfoldable pub ready_with_status :
      List Message → Option String × List Message → Exec Daemon (List Message)
  unfolding await_console await_pairing await_vm status_unknown
  ready_with_status responses (none, failure_actions) =
      method (status_unknown (responses ++ failure_actions))
  ready_with_status responses (some vm_status, failure_actions) = do
    shows ← gets shows_console
    pairing ← gets (moonlight_pairing_pending w c)
    if shows && pairing
        then await_pairing responses
        else if shows
        then method (await_console responses)
        else method (await_vm responses)

  unfoldable pub on_session_ready : ℕ → Exec Daemon (List Message)
  unfolding ready_with_status connect_session
  on_session_ready now = do
    modify connect_session
    blocked ← gets is_blocked
    responses ← gets (reapply_display_power c)
    if blocked
        then (do modify (then_persist degraded); pure (waiting "degraded" ∷ []))
        else do answer ← refresh_vm_status w c now; ready_with_status responses answer

  unfoldable pub on_console_started : ℤ → Option String → Daemon → Daemon
  on_console_started pid payload_backend d =
      let backend = or_else payload_backend c.target.console_backend in
      let d₁ = record d {
        console_running = true;
        console_pid = some pid;
        next_reconnect_at = none;
        current_reconnect_delay_ms = c.policy.reconnect_initial_ms;
        state = record d.state { active_console_backend = some backend; last_error = none };
      } in
      then_persist
        (if backend == "moonlight" && is_pending d.state.moonlight_pair_state
          then waiting_for_pairing
          else showing_console)
        d₁

  unfoldable pub on_display_power_applied : String → Daemon → Daemon
  on_display_power_applied applied d =
      let d₁ = record d { state = record d.state { display_power_applied = applied } } in
      persist_state
        (if not d₁.console_running && not (shows_console d₁) then wait_for_vm d₁ else d₁)

  abbrev exited_backend : Option String → Daemon → String
  exited_backend payload_backend d =
      or_else payload_backend (or_else d.state.active_console_backend c.target.console_backend)

  unfoldable pub exit_recorded : ℕ → ℤ → ℤ → String → Daemon → Daemon
  exit_recorded now code signal backend d =
      let d₁ = drop_console d in
      record d₁ { state = mark_console_exit now code signal (some backend) d₁.state }

  -- the pairing UI has exited while its PIN is not approved yet
  unfoldable pub pairing_ui_exited : Exec Daemon (List Message)
  pairing_ui_exited = do
    modify (λ d.
        then_persist waiting_for_pairing
          (set_last_error none (record d { next_reconnect_at = none })))
    message ← moonlight_pair_waiting_message w c
    pure (message ∷ [])

  unfoldable pub console_lost : ℕ → Daemon → List Message × Daemon
  console_lost now d =
      if shows_console d
      then (
        waiting "reconnecting" ∷ [],
        then_persist reconnecting_console (schedule_reconnect c now d),
      )
      else (waiting "vm_stopped" ∷ [], persist_state (wait_for_vm d))

  unfoldable pub on_console_exited : ℕ → ℤ → ℤ → Option String → Exec Daemon (List Message)
  unfolding exit_recorded pairing_ui_exited console_lost
  on_console_exited now code signal payload_backend = do
    backend ← gets (exited_backend payload_backend)
    modify (exit_recorded now code signal backend)
    pending ← gets (λ (d : Daemon). is_pending d.state.moonlight_pair_state)
    if backend == "moonlight" && pending then pairing_ui_exited else do
      modify (set_last_error (some (console_exited_unexpectedly backend code signal)))
      method (console_lost now)

  unfoldable pub on_session_error : Reason → Daemon → List Message × Daemon
  on_session_error reason d =
      enter_degraded reason (record d { console_running = false; console_pid = none })

  -- `handle_session_message`, past the validation of the payload
  unfoldable pub handle_session_event : ℕ → Event → Exec Daemon (List Message)
  handle_session_event now session_ready = on_session_ready now
  handle_session_event now (console_started pid backend) = do
    modify (on_console_started pid backend)
    pure []
  handle_session_event now (console_exited code signal backend) =
      on_console_exited now code signal backend
  handle_session_event now (display_power_applied applied) = do
    modify (on_display_power_applied applied)
    pure []
  handle_session_event now (session_error reason) = method (on_session_error reason)

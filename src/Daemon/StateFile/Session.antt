-- ===== src/Daemon/StateFile/Session.antt =====
-- The state file after the messages of the session.
use relay_inner_display_scri.Base.{
  ℕ, ◌≡◌, refl, Option, none, some, List, arith, String, ℤ, ◌&&◌, ◌==◌,
}
use relay_inner_display_scri.Exec.{ok, method, console_exited_unexpectedly}
use relay_inner_display_scri.Exec.Ends.{
  Ends, Ends-pure, Ends-gets, Ends-method, Ends-if, Ends-modify, Ends-bind,
}
use relay_inner_display_scri.Config.{AppConfig}
use relay_inner_display_scri.Message.{
  Message, Event, session_ready, console_started, console_exited, display_power_applied,
  session_error,
}
use relay_inner_display_scri.Services.{Services}
use relay_inner_display_scri.Daemon.State.{Daemon, persist_state, set_last_error}
use relay_inner_display_scri.Daemon.Pairing.{moonlight_pair_waiting_message}
use relay_inner_display_scri.Daemon.Session.{
  wait_for_vm, on_session_disconnected, await_console, await_pairing, await_vm, status_unknown,
  ready_with_status, on_session_ready, on_console_started, on_display_power_applied,
  pairing_ui_exited, console_lost, on_console_exited, on_session_error, handle_session_event,
}
use relay_inner_display_scri.Daemon.StateFile.{
  IsSynced, Any, Now, Then, FailureWritten, persist_state-IsSynced, enter_degraded-IsSynced,
  refresh-Ends,
}

module _ (w : Services) (c : AppConfig) (now : ℕ) where
  pub disconnected-IsSynced : (d : Daemon) → IsSynced (on_session_disconnected d)
  unfolding on_session_disconnected
  disconnected-IsSynced d = persist_state-IsSynced _

  status_unknown-IsSynced :
      (r : List Message) (d : Daemon) → IsSynced d → IsSynced (status_unknown w c r d).1
  unfolding status_unknown persist_state
  status_unknown-IsSynced r d s = ground arith

  await_console-IsSynced : (r : List Message) (d : Daemon) → IsSynced (await_console w c r d).1
  unfolding await_console persist_state
  await_console-IsSynced r d = ground arith

  await_vm-IsSynced : (r : List Message) (d : Daemon) → IsSynced (await_vm w c r d).1
  unfolding await_vm
  await_vm-IsSynced r d = persist_state-IsSynced (wait_for_vm d)

  pairing_message_kept : (d : Daemon) → (moonlight_pair_waiting_message w c d).1 ≡ d
  unfolding moonlight_pair_waiting_message
  pairing_message_kept d = refl

  message-Ends : Ends IsSynced Now (moonlight_pair_waiting_message w c)
  message-Ends = record { at = λ d s a e. rw pairing_message_kept s }

  await_pairing-Ends : (r : List Message) → Ends Any Now (await_pairing w c r)
  unfolding await_pairing
  await_pairing-Ends r =
      Ends-bind {R = Now} _ _ (Ends-modify _ (λ d _. persist_state-IsSynced _))
        (λ _. Ends-bind {R = Now} _ _ message-Ends (λ _. Ends-pure _ (λ d s. s)))

  ready_with_status-Ends :
      (r : List Message) (a : Option String × List Message)
      → Ends (FailureWritten a) Now (ready_with_status w c r a)
  unfolding ready_with_status
  ready_with_status-Ends r (none, f) = Ends-method _ (status_unknown-IsSynced _)
  ready_with_status-Ends r (some s, f) =
      Ends-bind {R = Then} _ _ (Ends-gets _ (λ d _. tt)) (λ shows.
        Ends-bind {R = Then} _ _ (Ends-gets _ (λ d _. tt)) (λ pairing.
          Ends-if (shows && pairing) _ _ (λ _. await_pairing-Ends r)
            (λ _.
              Ends-if shows (method (await_console w c r)) (method (await_vm w c r))
                (λ _. Ends-method (await_console w c r) (λ d _. await_console-IsSynced r d))
                (λ _. Ends-method (await_vm w c r) (λ d _. await_vm-IsSynced r d)))))

  ready-Ends : Ends Any Now (on_session_ready w c now)
  unfolding on_session_ready
  ready-Ends = Ends-bind {R = Then} _ _ (Ends-modify _ (λ d _. tt)) (λ _.
      Ends-bind {R = Then} _ _ (Ends-gets _ (λ d _. tt)) (λ blocked.
        Ends-bind {R = Then} _ _ (Ends-gets _ (λ d _. tt)) (λ responses.
          Ends-if blocked _ _
            (λ _.
              Ends-bind {R = Now} _ _ (Ends-modify _ (λ d _. persist_state-IsSynced _))
                (λ _. Ends-pure _ (λ d s. s)))
            (λ _. Ends-bind _ _ (refresh-Ends w c now) (ready_with_status-Ends responses)))))

  console_lost-IsSynced : (d : Daemon) → IsSynced (console_lost w c now d).1
  unfolding console_lost persist_state
  console_lost-IsSynced d = ground arith

  pairing_ui_exited-Ends : Ends Any Now (pairing_ui_exited w c)
  unfolding pairing_ui_exited
  pairing_ui_exited-Ends =
      Ends-bind {R = Now} _ _ (Ends-modify _ (λ d _. persist_state-IsSynced _))
        (λ _. Ends-bind {R = Now} _ _ message-Ends (λ _. Ends-pure _ (λ d s. s)))

  exited-Ends :
      (code signal : ℤ) (b : Option String) → Ends Any Now (on_console_exited w c now code signal b)
  unfolding on_console_exited
  exited-Ends code signal b = Ends-bind {R = Then} _ _ (Ends-gets _ (λ d _. tt)) (λ backend.
      Ends-bind {R = Then} _ _ (Ends-modify _ (λ d _. tt)) (λ _.
        Ends-bind {R = Then} _ _ (Ends-gets _ (λ d _. tt)) (λ pending.
          Ends-if (backend == "moonlight" && pending) _ _ (λ _. pairing_ui_exited-Ends)
            (λ _.
              Ends-bind {R = Then} _ _
                (Ends-modify
                  (set_last_error (some (console_exited_unexpectedly backend code signal)))
                  (λ d _. tt))
                (λ _. Ends-method (console_lost w c now) (λ d _. console_lost-IsSynced d))))))

  -- The postcondition of the handler.
  pub event-Ends : (e : Event) → Ends Any Now (handle_session_event w c now e)
  unfolding handle_session_event on_console_started on_display_power_applied on_session_error
  event-Ends session_ready = ready-Ends
  event-Ends (console_started pid b) =
      Ends-bind {R = Now} _ _ (Ends-modify _ (λ d _. persist_state-IsSynced _))
        (λ _. Ends-pure _ (λ d s. s))
  event-Ends (console_exited code signal b) = exited-Ends code signal b
  event-Ends (display_power_applied p) =
      Ends-bind {R = Now} _ _ (Ends-modify _ (λ d _. persist_state-IsSynced _))
        (λ _. Ends-pure _ (λ d s. s))
  event-Ends (session_error r) = Ends-method _ (λ d _. enter_degraded-IsSynced r _)

-- Whatever message of the session is handled, in whatever state: if the handler returns, the
-- state file holds the state in memory.
pub event-IsSynced :
    (w : Services) (c : AppConfig) (now : ℕ) (e : Event) (d : Daemon) (sent : List Message)
    → (handle_session_event w c now e d).0 ≡ ok sent
    → IsSynced (handle_session_event w c now e d).1
event-IsSynced w c now e d sent returns = (event-Ends w c now e).at d tt sent returns

-- ===== src/Daemon/Validity/Session.antt =====
-- Validity through the messages of the session.
use relay_inner_display_scri.Base.{
  ℕ, ℤ, String, Bool-cases, inl, inr, Option, none, some, List, arith,
}
use relay_inner_display_scri.Exec.{Reason}
use relay_inner_display_scri.Exec.Keeps.{Keeps, keeps_rules, Keeps-method}
use relay_inner_display_scri.Config.{AppConfig}
use relay_inner_display_scri.Models.{mark_console_exit, SessionState}
use relay_inner_display_scri.Message.{
  Message, Event, session_ready, console_started, console_exited, display_power_applied,
  session_error,
}
use relay_inner_display_scri.Services.{Services}
use relay_inner_display_scri.Daemon.State.{
  Daemon, transition, persist_state, set_last_error, drop_console,
}
use relay_inner_display_scri.Daemon.Failures.{enter_degraded}
use relay_inner_display_scri.Daemon.Session.{
  shows_console, then_persist, wait_for_vm, on_session_disconnected, connect_session, await_console,
  await_pairing, await_vm, status_unknown, ready_with_status, on_session_ready, on_console_started,
  on_display_power_applied, exit_recorded, pairing_ui_exited, console_lost, on_console_exited,
  on_session_error, handle_session_event,
}
use relay_inner_display_scri.Daemon.Validity.{IsValid}
use relay_inner_display_scri.Daemon.Validity.Failures.{
  transition-IsValid, persist_state-IsValid, set_last_error-IsValid, schedule_reconnect-IsValid,
  refresh_vm_status-IsValid,
}
use relay_inner_display_scri.Daemon.Validity.Pairing.{moonlight_pair_waiting_message-IsValid}

module _ {c : AppConfig} where
  pub then_persist-IsValid :
      (s : SessionState) (d : Daemon) → IsValid c d → IsValid c (then_persist s d)
  then_persist-IsValid s d v = persist_state-IsValid _ (transition-IsValid s d v)

  pub wait_for_vm-IsValid : (d : Daemon) → IsValid c d → IsValid c (wait_for_vm d)
  wait_for_vm-IsValid d v = transition-IsValid _ d v

  pub on_session_disconnected-IsValid :
      (d : Daemon) → IsValid c d → IsValid c (on_session_disconnected d)
  unfolding on_session_disconnected transition persist_state drop_console
  on_session_disconnected-IsValid d v = ground arith

  connect_session-IsValid : (d : Daemon) → IsValid c d → IsValid c (connect_session d)
  unfolding connect_session drop_console
  connect_session-IsValid d v = ground arith

module _ {c : AppConfig} (w : Services) where
  await_console-IsValid :
      (r : List Message) (d : Daemon) → IsValid c d → IsValid c (await_console w c r d).1
  unfolding await_console transition persist_state
  await_console-IsValid r d v = ground arith

  await_vm-IsValid : (r : List Message) (d : Daemon) → IsValid c d → IsValid c (await_vm w c r d).1
  unfolding await_vm
  await_vm-IsValid r d v = persist_state-IsValid _ (wait_for_vm-IsValid d v)

  status_unknown-IsValid :
      (r : List Message) (d : Daemon) → IsValid c d → IsValid c (status_unknown w c r d).1
  unfolding status_unknown transition persist_state
  status_unknown-IsValid r d v = ground arith

  await_pairing-IsValid : (r : List Message) → Keeps (IsValid c) (await_pairing w c r)
  unfolding await_pairing
  await_pairing-IsValid r =
      search (keeps_rules, then_persist-IsValid, moonlight_pair_waiting_message-IsValid)

  ready_with_status-IsValid :
      (r : List Message) (a : Option String × List Message)
      → Keeps (IsValid c) (ready_with_status w c r a)
  unfolding ready_with_status
  ready_with_status-IsValid r (none, f) = Keeps-method _ (status_unknown-IsValid _)
  ready_with_status-IsValid r (some s, f) =
      search (keeps_rules, await_console-IsValid, await_vm-IsValid, await_pairing-IsValid) depth 8

  on_session_ready-IsValid : (now : ℕ) → Keeps (IsValid c) (on_session_ready w c now)
  unfolding on_session_ready
  on_session_ready-IsValid now =
      search
        (
          keeps_rules, connect_session-IsValid, then_persist-IsValid, refresh_vm_status-IsValid,
          ready_with_status-IsValid,
        )
        depth 9

  on_console_started-IsValid :
      (pid : ℤ) (b : Option String) (d : Daemon)
      → IsValid c d
      → IsValid c (on_console_started w c pid b d)
  unfolding on_console_started transition persist_state
  on_console_started-IsValid pid b d v = ground arith

  on_display_power_applied-IsValid :
      (s : String) (d : Daemon) → IsValid c d → IsValid c (on_display_power_applied w c s d)
  unfolding on_display_power_applied transition persist_state
  on_display_power_applied-IsValid s d v = ground arith

  exit_recorded-IsValid :
      (now : ℕ) (code signal : ℤ) (b : String) (d : Daemon)
      → IsValid c d
      → IsValid c (exit_recorded w c now code signal b d)
  unfolding exit_recorded drop_console mark_console_exit
  exit_recorded-IsValid now code signal b d v = ground arith

  no_reconnect-IsValid :
      (d : Daemon)
      → IsValid c d
      → IsValid c (set_last_error none (record d { next_reconnect_at = none }))
  unfolding set_last_error
  no_reconnect-IsValid d v = ground arith

  pairing_ui_exited-IsValid : Keeps (IsValid c) (pairing_ui_exited w c)
  unfolding pairing_ui_exited
  pairing_ui_exited-IsValid =
      search
        (
          keeps_rules, then_persist-IsValid, no_reconnect-IsValid,
          moonlight_pair_waiting_message-IsValid,
        )
        depth 8

  console_lost-IsValid : (now : ℕ) (d : Daemon) → IsValid c d → IsValid c (console_lost w c now d).1
  unfolding console_lost
  console_lost-IsValid now d v = elim (Bool-cases (shows_console d)) [
    | inl shows ↦ rw shows (then_persist-IsValid _ _ (schedule_reconnect-IsValid now d v))
    | inr hidden ↦ rw hidden (persist_state-IsValid _ (wait_for_vm-IsValid d v))
  ]

  on_console_exited-IsValid :
      (now : ℕ) (code signal : ℤ) (b : Option String)
      → Keeps (IsValid c) (on_console_exited w c now code signal b)
  unfolding on_console_exited
  on_console_exited-IsValid now code signal b =
      search
        (
          keeps_rules, exit_recorded-IsValid, pairing_ui_exited-IsValid, set_last_error-IsValid,
          console_lost-IsValid,
        )
        depth 9

  on_session_error-IsValid :
      (r : Reason) (d : Daemon) → IsValid c d → IsValid c (on_session_error w c r d).1
  unfolding on_session_error enter_degraded
  on_session_error-IsValid r d v = ground arith

  pub handle_session_event-IsValid :
      (now : ℕ) (e : Event) → Keeps (IsValid c) (handle_session_event w c now e)
  unfolding handle_session_event
  handle_session_event-IsValid now session_ready = on_session_ready-IsValid now
  handle_session_event-IsValid now (console_started pid b) =
      search (keeps_rules, on_console_started-IsValid)
  handle_session_event-IsValid now (console_exited code signal b) =
      on_console_exited-IsValid now code signal b
  handle_session_event-IsValid now (display_power_applied s) =
      search (keeps_rules, on_display_power_applied-IsValid)
  handle_session_event-IsValid now (session_error r) = Keeps-method _ (on_session_error-IsValid r)

-- ===== src/Supervisor/View/Passes.antt =====
-- The view after each message of the daemon, and after a pass of the loop.
use relay_inner_display_scri.Base.{
  ℕ, ◌≡◌, refl, Bool, true, false, not, Option, none, some, List, [], ◌∷◌, String, is_empty, strip,
}
use relay_inner_display_scri.Exec.{Exn, os_error, ok, Exec, pure, ◌>>=◌}
use relay_inner_display_scri.Exec.Ends.{
  Ends, Ends-pure, Ends-raise, Ends-gets, Ends-method, Ends-if, Ends-bind, Ends-try,
}
use relay_inner_display_scri.Config.{AppConfig}
use relay_inner_display_scri.Services.{Completed}
use relay_inner_display_scri.Message.{
  Message, show_waiting, connect_console, connect_spice, disconnect_console, display_power,
  health_ping, Event,
}
use relay_inner_display_scri.Supervisor.State.{
  waiting_status_text, new_supervisor, Host, SessionSupervisor, call_host, ProcessCall,
}
use relay_inner_display_scri.Supervisor.Console.{poll_console, stop_console}
use relay_inner_display_scri.Supervisor.Power.{
  helper_failed, run_power_helper_command, applied, report_applied, apply_generic_display_power,
  resolve_wlr_randr_outputs, switch_outputs, switch_resolved, apply_wlr_randr_display_power,
  apply_display_power, if_completed,
}
use relay_inner_display_scri.Supervisor.Loop.{
  Pass, send_events, handle_daemon_message, handle_messages, pass, takes_exit,
}
use relay_inner_display_scri.Supervisor.View.{
  IsShown, Shown, refresh-IsShown, stop_console-Ends, show_waiting_state-Ends, launch_console-Ends,
  poll_console-IsShown,
}

module _ (w : Host) where
  helper_failed-Ends : (e : Exn) → Ends IsShown Shown (helper_failed w e)
  unfolding helper_failed
  helper_failed-Ends (os_error r) = Ends-pure _ (λ s h. h)
  helper_failed-Ends _ = Ends-raise _

  helped-IsShown :
      (command : List String) (s : SessionSupervisor)
      → IsShown s
      → IsShown (call_host (ProcessCall.run_helper command) (λ t. w.run_helper t command) s).1
  unfolding call_host
  helped-IsShown command s h = record {
    console_shown = h.console_shown;
    cursor_shown = h.cursor_shown;
    status_shown = h.status_shown;
    backend_known = h.backend_known;
  }

  run_helper-Ends :
      (command : List String) → Ends IsShown Shown (run_power_helper_command w command)
  unfolding run_power_helper_command
  run_helper-Ends command =
      Ends-try {R = Shown} IsShown _ _ _ (λ s h. helped-IsShown command s h)
        (record { at = λ s h a e. helped-IsShown command s h }) helper_failed-Ends
        (λ completed. Ends-pure _ (λ s h. h))

  applied-IsShown : (t : String) (s : SessionSupervisor) → IsShown s → IsShown (applied w t s).1
  unfolding applied
  applied-IsShown t s h = refresh-IsShown _ h.backend_known

  report_applied-Ends :
      (t : String) (r : Option Completed) → Ends IsShown Shown (report_applied w t r)
  unfolding report_applied
  report_applied-Ends t none = Ends-pure _ (λ s h. h)
  report_applied-Ends t (some r) = Ends-method (applied w t) (λ s h. applied-IsShown t s h)

  if_completed-Ends :
      (r : Option Completed) (next : Exec SessionSupervisor (List Event))
      → Ends IsShown Shown next
      → Ends IsShown Shown (if_completed w r next)
  if_completed-Ends none next e = Ends-pure _ (λ s h. h)
  if_completed-Ends (some r) next e = e

  switch_outputs-Ends : (t : String) (os : List String) → Ends IsShown Shown (switch_outputs w t os)
  unfolding switch_outputs
  switch_outputs-Ends t [] = Ends-method (applied w t) (λ s h. applied-IsShown t s h)
  switch_outputs-Ends t (o ∷ os) = Ends-bind {R = Shown} _ _ (Ends-gets _ (λ s h. h)) (λ helper.
      Ends-bind {R = Shown} _ _ (run_helper-Ends _)
        (λ completed. if_completed-Ends completed _ (switch_outputs-Ends t os)))

  switch_resolved-Ends :
      (t : String) (os : List String) → Ends IsShown Shown (switch_resolved w t os)
  unfolding switch_resolved
  switch_resolved-Ends t [] = Ends-pure _ (λ s h. h)
  switch_resolved-Ends t (o ∷ os) = switch_outputs-Ends t (o ∷ os)

  resolve-Ends : (o : String) → Ends IsShown Shown (resolve_wlr_randr_outputs w o)
  unfolding resolve_wlr_randr_outputs
  resolve-Ends o = Ends-bind {R = Shown} _ _ (Ends-gets _ (λ s h. h)) (λ helper.
      Ends-if (not (is_empty (strip o))) _ _ (λ _. Ends-pure _ (λ s h. h))
        (λ _. Ends-bind {R = Shown} _ _ (run_helper-Ends _) (λ r. Ends-pure _ (λ s h. h))))

  power-Ends : (t o : String) → Ends IsShown Shown (apply_display_power w t o)
  unfolding apply_display_power apply_wlr_randr_display_power apply_generic_display_power
  power-Ends t o = Ends-bind {R = Shown} _ _ (Ends-gets _ (λ s h. h)) (λ wlr.
      Ends-if wlr _ _
        (λ _. Ends-bind {R = Shown} _ _ (resolve-Ends o) (λ os. switch_resolved-Ends t os))
        (λ _.
          Ends-bind {R = Shown} _ _ (Ends-gets _ (λ s h. h)) (λ helper.
            Ends-bind {R = Shown} _ _ (run_helper-Ends _) (λ r. report_applied-Ends t r))))

module _ (w : Host) (c : AppConfig) where
  waiting-Ends :
      (r : String) (d : Option (List (String × String)))
      → Ends IsShown Shown (handle_daemon_message w c (show_waiting r d))
  unfolding handle_daemon_message
  waiting-Ends r d =
      Ends-bind {R = Shown} _ _ (record { at = λ s h. (show_waiting_state-Ends w c r d).at s tt })
        (λ _. Ends-pure _ (λ s h. h))

  handle-Ends : (m : Message) → Ends IsShown Shown (handle_daemon_message w c m)
  unfolding handle_daemon_message
  handle-Ends (show_waiting r d) = waiting-Ends r d
  handle-Ends (disconnect_console r) = waiting-Ends r none
  handle-Ends (connect_console b l argv cwd) = launch_console-Ends w c b l argv cwd false
  handle-Ends (connect_spice p) =
      launch_console-Ends w c "spice" "remote-viewer" ("remote-viewer" ∷ "--full-screen" ∷ p ∷ [])
        none true
  handle-Ends (display_power t o) = power-Ends w t o
  handle-Ends health_ping = Ends-pure _ (λ s h. h)

  messages-Ends :
      (p : Pass) (n : ℕ) (ms : List Message) → Ends IsShown Shown (handle_messages w c p n ms)
  unfolding handle_messages
  messages-Ends p n [] = Ends-pure _ (λ s h. h)
  messages-Ends p n (m ∷ ms) = Ends-bind {R = Shown} _ _ (handle-Ends m) (λ events.
      Ends-if (send_events p.accepts n events).1 _ _
        (λ _. messages-Ends p (send_events p.accepts n events).0 ms) (λ _. Ends-pure _ (λ s h. h)))

  stop-Ends : Ends IsShown Shown (stop_console w c false >>= λ _. pure false)
  stop-Ends =
      Ends-bind {R = Shown} _ _
        (record { at = λ s h a e. ((stop_console-Ends w c false).at s tt a e).1 })
        (λ _. Ends-pure _ (λ s h. h))

  pass-Ends : (p : Pass) → Ends IsShown Shown (pass w c p)
  unfolding pass
  pass-Ends p =
      Ends-if p.disconnected _ _ (λ _. stop-Ends)
        (λ _. Ends-bind {R = Shown} _ _ (messages-Ends p 0 p.messages) (λ handled.
          Ends-if (not handled.1) _ _ (λ _. stop-Ends)
            (λ _.
              Ends-bind {R = Shown} _ _
                (Ends-method (poll_console w c) (λ s h. poll_console-IsShown w c s h))
                (λ event.
                  Ends-if (takes_exit w c p handled.0 event) _ _ (λ _. Ends-pure _ (λ s h. h))
                    (λ _. stop-Ends)))))

-- If a pass of the session loop starts with a view that follows from the process, the waiting
-- reason and the display power, and returns, it ends with such a view, and a backend is then
-- known exactly while a process is.
pub pass-IsShown :
    (w : Host) (c : AppConfig) (p : Pass) (s : SessionSupervisor) (goes_on : Bool)
    → IsShown s
    → (pass w c p s).0 ≡ ok goes_on
    → IsShown (pass w c p s).1
pass-IsShown w c p s goes_on shown returns = (pass-Ends w c p).at s shown goes_on returns

pub new_supervisor-IsShown : (c : AppConfig) → IsShown (new_supervisor c)
unfolding new_supervisor waiting_status_text
new_supervisor-IsShown c = record {
  console_shown = refl;
  cursor_shown = refl;
  status_shown = refl;
  backend_known = refl;
}

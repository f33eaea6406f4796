-- ===== src/Supervisor/Allowed/Passes.antt =====
-- The processes that are started by each message of the daemon, and by a pass of the loop.
use relay_inner_display_scri.Base.{
  ℕ, ◌≡◌, ◌≢◌, refl, Bool, true, false, Option, none, some, List, [], ◌∷◌, String, is_empty, strip,
  not, all_of, ◌==◌, ◌&&◌, if◌then◌else◌, ℤ, arith, is_some,
}
use relay_inner_display_scri.Exec.{Reason, Exn, os_error, Exec, method}
use relay_inner_display_scri.Exec.Keeps.{
  Keeps, Keeps-try, Keeps-method, Keeps-pure, Keeps-raise, Keeps-gets, Keeps-if, Keeps-bind,
  keeps_rules,
}
use relay_inner_display_scri.Config.{AppConfig, ConsoleMoonlightConfig}
use relay_inner_display_scri.Services.{Completed}
use relay_inner_display_scri.Message.{
  Message, show_waiting, connect_console, connect_spice, disconnect_console, display_power,
  health_ping, Event,
}
use relay_inner_display_scri.Supervisor.State.{
  ProcessCall, Host, SessionSupervisor, refresh_view_state, new_supervisor, set_waiting_reason,
}
use relay_inner_display_scri.Supervisor.Console.{
  allowed_launcher, show_waiting_state, launch_unless, launch_console, validate_console_request,
  validate_launcher, validate_moonlight_console_request, report_status, console_ended, poll_console,
  polled, reads_argv0, exit_status,
}
use relay_inner_display_scri.Supervisor.Power.{
  helper_failed, run_power_helper_command, applied, report_applied, apply_generic_display_power,
  resolve_wlr_randr_outputs, switch_outputs, switch_resolved, apply_wlr_randr_display_power,
  apply_display_power, if_completed,
}
use relay_inner_display_scri.Supervisor.Loop.{
  Pass, send_events, handle_daemon_message, handle_messages, pass,
}
use relay_inner_display_scri.Supervisor.Allowed.{
  OnlyAllowed, kept, seen, is_allowed, helper-Keeps, with_helper-Keeps, method-Keeps, modify-Keeps,
  refuse-Keeps, stop_console-Keeps, launch_unless-Keeps, validated_viewer,
}

module _ (w : Host) (c : AppConfig) where
  moonlight_refused_empty :
      (m : Option ConsoleMoonlightConfig) (launcher argv0 : String)
      → is_some m ≡ false
      → validate_moonlight_console_request w c m launcher argv0 ≢ none
  unfolding validate_moonlight_console_request
  moonlight_refused_empty none launcher argv0 e = ground arith
  moonlight_refused_empty (some m) launcher argv0 e = ground arith

  launcher_refused_empty :
      (b : String) (allowed : Option String) (launcher argv0 : String)
      → is_some allowed ≡ false
      → validate_launcher w c b allowed launcher argv0 ≢ none
  unfolding validate_launcher
  launcher_refused_empty b none launcher argv0 e = ground arith
  launcher_refused_empty b (some name) launcher argv0 e = ground arith

  -- with no arguments, what the validation lets pass raises
  refused_empty :
      (b launcher : String)
      → (b == c.target.console_backend && reads_argv0 w c b) ≡ false
      → validate_console_request w c b launcher "" ≢ none
  unfolding validate_console_request
  refused_empty b launcher e = ground (
    arith,
    moonlight_refused_empty c.console.moonlight launcher "",
    launcher_refused_empty b (allowed_launcher b) launcher "",
  )

  launch_empty-Keeps :
      (r : Option Reason) (b : String) (cwd : Option String) (l : Bool)
      → r ≢ none
      → Keeps (OnlyAllowed w c) (launch_unless w c r b [] cwd l)
  unfolding launch_unless
  launch_empty-Keeps (some r) b cwd l k = refuse-Keeps w c r
  launch_empty-Keeps none b cwd l k = elim (k refl) [ ]

  either-Keeps :
      {A : Type 0} (b : Bool) (m n : Exec SessionSupervisor A)
      → Keeps (OnlyAllowed w c) m
      → (b ≡ false → Keeps (OnlyAllowed w c) n)
      → Keeps (OnlyAllowed w c) (if b then m else n)
  either-Keeps true m n km kn = km
  either-Keeps false m n km kn = kn refl

  launch_console-Keeps :
      (b launcher : String) (argv : List String) (cwd : Option String) (l : Bool)
      → Keeps (OnlyAllowed w c) (launch_console w c b launcher argv cwd l)
  unfolding launch_console
  launch_console-Keeps b launcher [] cwd l =
      either-Keeps (b == c.target.console_backend && reads_argv0 w c b) _ _ (Keeps-raise _)
        (λ e. launch_empty-Keeps _ b cwd l (refused_empty b launcher e))
  launch_console-Keeps b launcher (argv0 ∷ argv) cwd l =
      launch_unless-Keeps w c _ b argv0 argv cwd l (validated_viewer w c b launcher argv0)

  show_waiting_state-Keeps :
      (r : String) (d : Option (List (String × String)))
      → Keeps (OnlyAllowed w c) (show_waiting_state w c r d)
  unfolding show_waiting_state
  show_waiting_state-Keeps r d = Keeps-bind _ _ (modify-Keeps w c _ (λ s. refl)) (λ _.
      Keeps-bind _ _ (stop_console-Keeps w c false)
        (λ _. modify-Keeps w c refresh_view_state (unfold refresh_view_state in λ s. refl)))

  helper_failed-Keeps : (e : Exn) → Keeps (OnlyAllowed w c) (helper_failed w e)
  unfolding helper_failed
  helper_failed-Keeps (os_error r) = Keeps-pure _
  helper_failed-Keeps _ = Keeps-raise _

  run_helper-Keeps :
      (helper : String) (arguments : List String)
      → helper ≡ c.display.power_helper
      → Keeps (OnlyAllowed w c) (run_power_helper_command w (helper ∷ arguments))
  unfolding run_power_helper_command
  run_helper-Keeps helper arguments e =
      Keeps-try _ _ _ (helper-Keeps w c helper arguments e) helper_failed-Keeps (λ r. Keeps-pure _)

  applied-Keeps : (t : String) → Keeps (OnlyAllowed w c) (method (applied w t))
  applied-Keeps t = method-Keeps w c (applied w t) (unfold applied refresh_view_state in λ s. refl)

  report_applied-Keeps :
      (t : String) (r : Option Completed) → Keeps (OnlyAllowed w c) (report_applied w t r)
  unfolding report_applied
  report_applied-Keeps t none = Keeps-pure _
  report_applied-Keeps t (some r) = applied-Keeps t

  if_completed-Keeps :
      (r : Option Completed) (next : Exec SessionSupervisor (List Event))
      → Keeps (OnlyAllowed w c) next
      → Keeps (OnlyAllowed w c) (if_completed w r next)
  if_completed-Keeps none next k = Keeps-pure _
  if_completed-Keeps (some r) next k = k

  switch_outputs-Keeps :
      (t : String) (os : List String) → Keeps (OnlyAllowed w c) (switch_outputs w t os)
  unfolding switch_outputs
  switch_outputs-Keeps t [] = applied-Keeps t
  switch_outputs-Keeps t (o ∷ os) = with_helper-Keeps w c _ (λ helper e.
      Keeps-bind _ _ (run_helper-Keeps helper _ e)
        (λ r. if_completed-Keeps r _ (switch_outputs-Keeps t os)))

  switch_resolved-Keeps :
      (t : String) (os : List String) → Keeps (OnlyAllowed w c) (switch_resolved w t os)
  unfolding switch_resolved
  switch_resolved-Keeps t [] = Keeps-pure _
  switch_resolved-Keeps t (o ∷ os) = switch_outputs-Keeps t (o ∷ os)

  power-Keeps : (t o : String) → Keeps (OnlyAllowed w c) (apply_display_power w t o)
  unfolding apply_display_power apply_wlr_randr_display_power apply_generic_display_power
      resolve_wlr_randr_outputs
  power-Keeps t o = Keeps-bind _ _ (Keeps-gets _) (λ wlr.
      Keeps-if wlr _ _
        (Keeps-bind _ _
          (with_helper-Keeps w c _ (λ helper e.
            Keeps-if (not (is_empty (strip o))) _ _ (Keeps-pure _)
              (Keeps-bind _ _ (run_helper-Keeps helper [] e) (λ r. Keeps-pure _))))
          (switch_resolved-Keeps t))
        (with_helper-Keeps w c _
          (λ helper e. Keeps-bind _ _ (run_helper-Keeps helper _ e) (report_applied-Keeps t))))

  handle-Keeps : (m : Message) → Keeps (OnlyAllowed w c) (handle_daemon_message w c m)
  unfolding handle_daemon_message
  handle-Keeps (show_waiting r d) = search (keeps_rules, show_waiting_state-Keeps) depth 6
  handle-Keeps (disconnect_console r) = search (keeps_rules, show_waiting_state-Keeps) depth 6
  handle-Keeps (connect_console b l argv cwd) = launch_console-Keeps b l argv cwd false
  handle-Keeps (connect_spice p) =
      launch_console-Keeps "spice" "remote-viewer" ("remote-viewer" ∷ "--full-screen" ∷ p ∷ []) none
        true
  handle-Keeps (display_power t o) = power-Keeps t o
  handle-Keeps health_ping = Keeps-pure _

  messages-Keeps :
      (p : Pass) (n : ℕ) (ms : List Message) → Keeps (OnlyAllowed w c) (handle_messages w c p n ms)
  unfolding handle_messages
  messages-Keeps p n [] = Keeps-pure _
  messages-Keeps p n (m ∷ ms) = Keeps-bind _ _ (handle-Keeps m) (λ events.
      Keeps-if (send_events p.accepts n events).1 _ _
        (messages-Keeps p (send_events p.accepts n events).0 ms) (Keeps-pure _))

  reported_history :
      (status : Option ℤ) (s : SessionSupervisor)
      → seen w c (report_status w c status s).1 ≡ seen w c s
  unfolding report_status console_ended set_waiting_reason refresh_view_state
  reported_history none s = refl
  reported_history (some status) s = refl

  polled-OnlyAllowed : (s : SessionSupervisor) → OnlyAllowed w c s → OnlyAllowed w c (polled w c s)
  unfolding polled OnlyAllowed is_allowed
  polled-OnlyAllowed s (h, k) = (with_poll s.console_process, k)
    where
      with_poll :
          (process : Option ℤ)
          → all_of
              (is_allowed w c)
              (elim process [ none ↦ s.history | some pid ↦ ProcessCall.poll pid ∷ s.history ])
            ≡ true
      with_poll none = h
      with_poll (some pid) = h

  poll-Keeps : Keeps (OnlyAllowed w c) (method (poll_console w c))
  unfolding poll_console
  poll-Keeps = Keeps-method (poll_console w c) (λ s h.
      kept w c _ _ (reported_history (exit_status w c s) (polled w c s)) (polled-OnlyAllowed s h))

  -- started from any history in which only viewers were started
  pub pass-Keeps : (p : Pass) → Keeps (OnlyAllowed w c) (pass w c p)
  unfolding pass
  pass-Keeps p = search (keeps_rules, stop_console-Keeps w c, messages-Keeps, poll-Keeps) depth 12

  -- pass after pass, also after one that raises
  pub passes : List Pass → SessionSupervisor → SessionSupervisor
  passes [] s = s
  passes (p ∷ ps) s = passes ps (pass w c p s).1

  passes_keep :
      (ps : List Pass) (s : SessionSupervisor) → OnlyAllowed w c s → OnlyAllowed w c (passes ps s)
  unfolding passes
  passes_keep [] s h = h
  passes_keep (p ∷ ps) s h = passes_keep ps (pass w c p s).1 ((pass-Keeps p).at s h)

-- Whatever the daemon sends and however the processes behave, also past exceptions, every
-- process that the session has started from its start on is the viewer of the configured backend
-- (for Moonlight its configured binary, for the others a program with the allowed name) or a run
-- of the configured display helper.
pub passes-OnlyAllowed :
    (w : Host) (c : AppConfig) (ps : List Pass) → OnlyAllowed w c (passes w c ps (new_supervisor c))
passes-OnlyAllowed w c ps =
    passes_keep w c ps (new_supervisor c) (unfold OnlyAllowed new_supervisor in (refl, refl))

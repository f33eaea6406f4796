-- ===== src/Supervisor/View.antt =====
-- The view of the kiosk against the viewer process, the waiting reason and the display power.
pub mod Passes
use relay_inner_display_scri.Base.{
  ℕ, ◌≡◌, refl, Bool, true, false, not, Option, none, some, List, [], ◌∷◌, String, ◌==◌, ◌&&◌,
  is_some, if◌then◌else◌, ℤ, is_empty, strip, eqb, arith,
}
use relay_inner_display_scri.Exec.{
  Reason, Exn, timeout_expired, os_error, Outcome, ok, Exec, pure, method, modify,
}
use relay_inner_display_scri.Exec.Ends.{
  Ends, Ends-pure, Ends-raise, Ends-gets, Ends-method, Ends-if, Ends-modify, Ends-bind, Ends-try,
}
use relay_inner_display_scri.Config.{AppConfig}
use relay_inner_display_scri.Services.{Completed}
use relay_inner_display_scri.Message.{
  Message, show_waiting, connect_console, connect_spice, disconnect_console, display_power,
  health_ping, Event,
}
use relay_inner_display_scri.Supervisor.State.{
  ProcessCall, History, Host, SessionSupervisor, refresh_view_state, waiting_status_text,
  set_waiting_reason, call_host,
}
use relay_inner_display_scri.Supervisor.Console.{
  forget_console, forget_and_raise, stop_process, stop_console, show_waiting_state, refuse,
  spawn_failed, console_launched, connecting, launch_process, launch_unless, launch_console,
  reads_argv0, exit_status, validate_console_request, console_ended, report_status, poll_console,
  polled, wait_for_console_process_exit,
}
use relay_inner_display_scri.Supervisor.Power.{
  helper_failed, run_power_helper_command, applied, report_applied, apply_generic_display_power,
  resolve_wlr_randr_outputs, switch_outputs, switch_resolved, apply_wlr_randr_display_power,
  apply_display_power, outputs_of,
}
use relay_inner_display_scri.Supervisor.Loop.{Pass, handle_daemon_message, handle_messages, pass}

pub record IsShown (s : SessionSupervisor) : Type 0 where
  pub console_shown : s.view_state.console_active ≡ is_some s.console_process
  pub cursor_shown : s.view_state.cursor_hidden ≡ is_some s.console_process
  pub status_shown : s.view_state.status_text ≡ (
      if s.view_state.display_power_state == "off"
      then "Display sleeping"
      else waiting_status_text s.view_state.waiting_reason)
  pub backend_known : is_some s.active_console_backend ≡ is_some s.console_process

-- no process and no backend, whatever the view shows
pub record IsIdle (s : SessionSupervisor) : Type 0 where
  pub no_process : s.console_process ≡ none
  pub no_backend : s.active_console_backend ≡ none

abbrev pub Any : SessionSupervisor → Type 0
Any s = Unit

abbrev pub Shown : {A : Type 0} → A → SessionSupervisor → Type 0
Shown a s = IsShown s

-- a console that has been stopped
abbrev pub Off : {A : Type 0} → A → SessionSupervisor → Type 0
Off a s = IsIdle s × IsShown s

abbrev pub Idle : {A : Type 0} → A → SessionSupervisor → Type 0
Idle a s = IsIdle s

pub refresh-IsShown :
    (s : SessionSupervisor)
    → is_some s.active_console_backend ≡ is_some s.console_process
    → IsShown (refresh_view_state s)
unfolding refresh_view_state
refresh-IsShown s k = record {
  console_shown = refl;
  cursor_shown = refl;
  status_shown = refl;
  backend_known = k;
}

backends_agree :
    (s : SessionSupervisor)
    → IsIdle s
    → is_some s.active_console_backend ≡ is_some s.console_process
backends_agree s i = rw (i.no_process, i.no_backend) refl

off_forget_console :
    (s : SessionSupervisor) → IsIdle (forget_console s) × IsShown (forget_console s)
unfolding forget_console refresh_view_state
off_forget_console s = (
  record { no_process = refl; no_backend = refl },
  record { console_shown = refl; cursor_shown = refl; status_shown = refl; backend_known = refl },
)

pub call_host-Ends :
    {A : Type 0} {P : SessionSupervisor → Type 0} (k : ProcessCall) (answer : History → Outcome A)
    → ((s : SessionSupervisor) (t : History) → P s → P (record s { history = t }))
    → Ends P (λ _. P) (call_host k answer)
unfolding call_host
call_host-Ends k answer f = record { at = λ s p a e. f s _ p }

module _ (w : Host) (c : AppConfig) where
  stop_process-Ends : (b : Bool) (p : Option ℤ) → Ends Any Off (stop_process w c b p)
  unfolding stop_process forget_and_raise
  stop_process-Ends b none = Ends-modify _ (λ s _. off_forget_console _)
  stop_process-Ends b (some pid) = Ends-bind {R = λ _. Any} _ _ (Ends-modify _ (λ s _. tt)) (λ _.
      Ends-bind {R = λ _. Any} _ _ (call_host-Ends _ _ (λ s t p. tt)) (λ _.
        Ends-try {R = λ _. Any} Any _ _ _ (λ s _. tt) (record { at = λ s p a e. tt })
          (λ e. Ends-bind {R = λ _. Any} _ _ (Ends-modify _ (λ s _. tt)) (λ _. Ends-raise e))
          (λ _. Ends-modify _ (λ s _. off_forget_console s))))

  pub stop_console-Ends : (b : Bool) → Ends Any Off (stop_console w c b)
  unfolding stop_console
  stop_console-Ends b =
      Ends-bind {R = λ _. Any} _ _ (Ends-gets _ (λ s _. tt)) (λ p. stop_process-Ends b p)

  refuse-IsShown :
      (r : Reason) (s : SessionSupervisor)
      → is_some s.active_console_backend ≡ is_some s.console_process
      → IsShown (refuse w c r s).1
  unfolding refuse set_waiting_reason
  refuse-IsShown r s k = refresh-IsShown _ k

  pub show_waiting_state-Ends :
      (r : String) (d : Option (List (String × String)))
      → Ends Any Shown (show_waiting_state w c r d)
  unfolding show_waiting_state
  show_waiting_state-Ends r d = Ends-bind {R = λ _. Any} _ _ (Ends-modify _ (λ s _. tt)) (λ _.
      Ends-bind {R = Off} _ _ (stop_console-Ends false)
        (λ _. Ends-modify refresh_view_state (λ s i. refresh-IsShown s (backends_agree s i.0))))

  spawn-IsIdle :
      (argv : List String) (cwd : Option String) (s : SessionSupervisor)
      → IsIdle s
      → IsIdle (call_host (ProcessCall.spawn argv cwd) (λ t. w.spawn t argv cwd) s).1
  unfolding call_host
  spawn-IsIdle argv cwd s i = record { no_process = i.no_process; no_backend = i.no_backend }

  connecting-IsIdle : (s : SessionSupervisor) → IsIdle s → IsIdle (connecting w c s)
  unfolding connecting
  connecting-IsIdle s i = record { no_process = i.no_process; no_backend = i.no_backend }

  spawn_failed-Ends : (b : String) (e : Exn) → Ends IsIdle Shown (spawn_failed w c b e)
  unfolding spawn_failed
  spawn_failed-Ends b (os_error r) = Ends-method _ (λ s i. refuse-IsShown _ s (backends_agree s i))
  spawn_failed-Ends b _ = Ends-raise _

  launched-IsShown :
      (b : String) (l : Bool) (pid : ℤ) (s : SessionSupervisor)
      → IsShown (console_launched w c b l pid s).1
  unfolding console_launched
  launched-IsShown b l pid s = refresh-IsShown _ refl

  launch_process-Ends :
      (b : String) (argv : List String) (cwd : Option String) (l : Bool)
      → Ends Any Shown (launch_process w c b argv cwd l)
  unfolding launch_process
  launch_process-Ends b argv cwd l = Ends-bind {R = Off} _ _ (stop_console-Ends false) (λ _.
      Ends-bind {R = Idle} _ _ (Ends-modify (connecting w c) (λ s i. connecting-IsIdle s i.0)) (λ _.
        Ends-try {R = Idle} IsIdle _ _ _ (λ s i. spawn-IsIdle argv cwd s i)
          (record { at = λ s i a e. spawn-IsIdle argv cwd s i }) (spawn_failed-Ends b)
          (λ pid. Ends-method (console_launched w c b l pid) (λ s _. launched-IsShown b l pid s))))

  launch_unless-Ends :
      (r : Option Reason) (b : String) (argv : List String) (cwd : Option String) (l : Bool)
      → Ends IsShown Shown (launch_unless w c r b argv cwd l)
  unfolding launch_unless
  launch_unless-Ends (some r) b argv cwd l =
      Ends-method (refuse w c r) (λ s h. refuse-IsShown r s h.backend_known)
  launch_unless-Ends none b argv cwd l = record {
    at = λ s h. (launch_process-Ends b argv cwd l).at s tt;
  }

  pub launch_console-Ends :
      (b launcher : String) (argv : List String) (cwd : Option String) (l : Bool)
      → Ends IsShown Shown (launch_console w c b launcher argv cwd l)
  unfolding launch_console
  launch_console-Ends b launcher [] cwd l =
      Ends-if (b == c.target.console_backend && reads_argv0 w c b) _ _ (λ _. Ends-raise _)
        (λ _. launch_unless-Ends _ b [] cwd l)
  launch_console-Ends b launcher (a ∷ argv) cwd l = launch_unless-Ends _ b (a ∷ argv) cwd l

  reported :
      (status : Option ℤ) (s : SessionSupervisor)
      → IsShown s
      → IsShown (report_status w c status s).1
  unfolding report_status console_ended set_waiting_reason refresh_view_state
  reported none s h = h
  reported (some status) s h = record {
    console_shown = refl;
    cursor_shown = refl;
    status_shown = refl;
    backend_known = refl;
  }

  pub poll_console-IsShown : (s : SessionSupervisor) → IsShown s → IsShown (poll_console w c s).1
  unfolding poll_console polled
  poll_console-IsShown s h = reported (exit_status w c s) (polled w c s) (record {
    console_shown = h.console_shown;
    cursor_shown = h.cursor_shown;
    status_shown = h.status_shown;
    backend_known = h.backend_known;
  })

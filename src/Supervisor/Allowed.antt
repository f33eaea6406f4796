-- ===== src/Supervisor/Allowed.antt =====
-- Which processes the session may start, whatever the daemon asks for.
pub mod Passes
use relay_inner_display_scri.Base.{
  ℕ, ◌≡◌, refl, ◌∙◌, ap, Bool, true, false, not, Option, none, some, List, [], ◌∷◌, String, ◌==◌,
  ◌&&◌, if◌then◌else◌, ℤ, Bool-cases, inl, inr, all_of, arith, eq_iff, is_empty, strip,
}
use relay_inner_display_scri.Exec.{
  Reason, Exn, timeout_expired, os_error, Outcome, ok, Exec, pure, method, modify, gets, ◌>>=◌,
}
use relay_inner_display_scri.Exec.Keeps.{
  Keeps, Keeps-pure, Keeps-raise, Keeps-gets, Keeps-method, Keeps-if, Keeps-modify, Keeps-bind,
  Keeps-try, keeps_rules,
}
use relay_inner_display_scri.Config.{AppConfig, ConsoleMoonlightConfig}
use relay_inner_display_scri.Services.{Completed}
use relay_inner_display_scri.Message.{
  Message, show_waiting, connect_console, connect_spice, disconnect_console, display_power,
  health_ping, Event,
}
use relay_inner_display_scri.Supervisor.State.{
  ProcessCall, History, Host, SessionSupervisor, refresh_view_state, set_waiting_reason, text_or,
  call_host,
}
use relay_inner_display_scri.Supervisor.Console.{
  allowed_launcher, forget_console, forget_and_raise, stop_process, stop_console,
  show_waiting_state, refuse, spawn_failed, console_launched, connecting, launch_process,
  launch_unless, launch_console, validate_console_request, validate_launcher,
  validate_moonlight_console_request, console_ended, report_status, poll_console,
  wait_for_console_process_exit, wait_again, kill_late, reads_argv0, exit_status,
}
use relay_inner_display_scri.Supervisor.Power.{
  helper_failed, run_power_helper_command, applied, report_applied, apply_generic_display_power,
  resolve_wlr_randr_outputs, switch_outputs, switch_resolved, apply_wlr_randr_display_power,
  apply_display_power, if_completed,
}
use relay_inner_display_scri.Supervisor.Loop.{
  Pass, send_events, handle_daemon_message, handle_messages, pass, takes_exit,
}

module _ (w : Host) (c : AppConfig) where
  abbrev is_binary : Option ConsoleMoonlightConfig → String → Bool
  is_binary none argv0 = false
  is_binary (some m) argv0 = argv0 == m.binary

  abbrev is_named : Option String → String → Bool
  is_named none argv0 = false
  is_named (some name) argv0 = text_or (w.path_name argv0) argv0 == name

  -- the viewer of the configured backend
  pub is_viewer : String → Bool
  is_viewer argv0 =
      if c.target.console_backend == "moonlight"
      then is_binary c.console.moonlight argv0
      else is_named (allowed_launcher c.target.console_backend) argv0

  unfoldable pub is_allowed : ProcessCall → Bool
  is_allowed (ProcessCall.spawn [] cwd) = false
  is_allowed (ProcessCall.spawn (argv0 ∷ argv) cwd) = is_viewer argv0
  is_allowed (ProcessCall.run_helper []) = false
  is_allowed (ProcessCall.run_helper (argv0 ∷ argv)) = argv0 == c.display.power_helper
  is_allowed (ProcessCall.terminate pid) = true
  is_allowed (ProcessCall.kill pid) = true
  is_allowed (ProcessCall.wait pid) = true
  is_allowed (ProcessCall.poll pid) = true

  -- every process that was started is the viewer of the configured backend, or the configured
  -- display helper, which is the one the session holds
  unfoldable pub OnlyAllowed : SessionSupervisor → Type 0
  OnlyAllowed s = (all_of is_allowed s.history ≡ true) × (s.power_helper ≡ c.display.power_helper)

  -- what the invariant reads
  abbrev pub seen : SessionSupervisor → History × String
  seen s = (s.history, s.power_helper)

  pub call_host-Keeps :
      {A : Type 0} (k : ProcessCall) (answer : History → Outcome A)
      → is_allowed k ≡ true
      → Keeps OnlyAllowed (call_host k answer)
  unfolding call_host OnlyAllowed
  call_host-Keeps k answer e = record { at = λ s h. (rw (e, h.0) refl, h.1) }

  wait-Keeps : (pid : ℤ) → Keeps OnlyAllowed (call_host (ProcessCall.wait pid) (λ t. w.wait t pid))
  wait-Keeps pid = call_host-Keeps _ _ (unfold is_allowed in refl)

  kill-Keeps : (pid : ℤ) → Keeps OnlyAllowed (call_host (ProcessCall.kill pid) (λ t. w.kill t pid))
  kill-Keeps pid = call_host-Keeps _ _ (unfold is_allowed in refl)

  terminate-Keeps :
      (pid : ℤ) → Keeps OnlyAllowed (call_host (ProcessCall.terminate pid) (λ t. w.terminate t pid))
  terminate-Keeps pid = call_host-Keeps _ _ (unfold is_allowed in refl)

  pub helper-Keeps :
      (helper : String) (arguments : List String)
      → helper ≡ c.display.power_helper
      → Keeps OnlyAllowed (
          call_host
            (ProcessCall.run_helper (helper ∷ arguments))
            (λ t. w.run_helper t (helper ∷ arguments)))
  unfolding is_allowed
  helper-Keeps helper arguments e = call_host-Keeps _ _ ((eq_iff helper c.display.power_helper).1 e)

  -- a method that reads the helper of the session first
  pub with_helper-Keeps :
      {A : Type 0} (f : String → Exec SessionSupervisor A)
      → ((helper : String) → helper ≡ c.display.power_helper → Keeps OnlyAllowed (f helper))
      → Keeps OnlyAllowed (gets (λ (s : SessionSupervisor). s.power_helper) >>= f)
  unfolding ◌>>=◌ OnlyAllowed
  with_helper-Keeps f k = record { at = λ s h. (k s.power_helper h.1).at s h }

  pub kept : (s t : SessionSupervisor) → seen t ≡ seen s → OnlyAllowed s → OnlyAllowed t
  unfolding OnlyAllowed
  kept s t e (h, k) = (
    ap (λ (p : History × String). all_of is_allowed p.0) e ∙ h,
    ap (λ (p : History × String). p.1) e ∙ k,
  )

  pub modify-Keeps :
      (f : SessionSupervisor → SessionSupervisor)
      → ((s : SessionSupervisor) → seen (f s) ≡ seen s)
      → Keeps OnlyAllowed (modify f)
  unfolding OnlyAllowed
  modify-Keeps f e = Keeps-modify f (λ s h. kept s (f s) (e s) h)

  pub method-Keeps :
      {A : Type 0} (f : SessionSupervisor → A × SessionSupervisor)
      → ((s : SessionSupervisor) → seen (f s).1 ≡ seen s)
      → Keeps OnlyAllowed (method f)
  unfolding OnlyAllowed
  method-Keeps f e = Keeps-method f (λ s h. kept s (f s).1 (e s) h)

  forget-Keeps : Keeps OnlyAllowed (modify forget_console)
  forget-Keeps = modify-Keeps _ (unfold forget_console in λ s. refl)

  wait_again-Keeps : (pid : ℤ) (e : Exn) → Keeps OnlyAllowed (wait_again w c pid e)
  unfolding wait_again
  wait_again-Keeps pid (timeout_expired r) = Keeps-pure _
  wait_again-Keeps pid _ = Keeps-raise _

  kill_late-Keeps : (pid : ℤ) (e : Exn) → Keeps OnlyAllowed (kill_late w c pid e)
  unfolding kill_late
  kill_late-Keeps pid (timeout_expired r) =
      search (keeps_rules, kill-Keeps, wait-Keeps, wait_again-Keeps) depth 8
  kill_late-Keeps pid _ = Keeps-raise _

  stop_process-Keeps : (b : Bool) (p : Option ℤ) → Keeps OnlyAllowed (stop_process w c b p)
  unfolding stop_process forget_and_raise wait_for_console_process_exit
  stop_process-Keeps b none = modify-Keeps _ (unfold forget_console in λ s. refl)
  stop_process-Keeps b (some pid) = Keeps-bind _ _ (modify-Keeps _ (λ s. refl)) (λ _.
      search (keeps_rules, terminate-Keeps, wait-Keeps, kill_late-Keeps, forget-Keeps) depth 10)

  pub stop_console-Keeps : (b : Bool) → Keeps OnlyAllowed (stop_console w c b)
  unfolding stop_console
  stop_console-Keeps b = search (keeps_rules, stop_process-Keeps) depth 8

  pub refuse-Keeps : (r : Reason) → Keeps OnlyAllowed (method (refuse w c r))
  refuse-Keeps r = method-Keeps _ (unfold refuse refresh_view_state set_waiting_reason in λ s. refl)

  spawn_failed-Keeps : (b : String) (e : Exn) → Keeps OnlyAllowed (spawn_failed w c b e)
  unfolding spawn_failed
  spawn_failed-Keeps b (os_error r) = refuse-Keeps _
  spawn_failed-Keeps b _ = Keeps-raise _

  launched-Keeps :
      (b : String) (l : Bool) (pid : ℤ) → Keeps OnlyAllowed (method (console_launched w c b l pid))
  launched-Keeps b l pid = method-Keeps _ (unfold console_launched refresh_view_state in λ s. refl)

  connecting-Keeps : Keeps OnlyAllowed (modify (connecting w c))
  connecting-Keeps = modify-Keeps _ (unfold connecting in λ s. refl)

  spawn-Keeps :
      (argv0 : String) (argv : List String) (cwd : Option String)
      → is_viewer argv0 ≡ true
      → Keeps OnlyAllowed
          (call_host (ProcessCall.spawn (argv0 ∷ argv) cwd) (λ t. w.spawn t (argv0 ∷ argv) cwd))
  unfolding is_allowed
  spawn-Keeps argv0 argv cwd e = call_host-Keeps _ _ e

  launch_process-Keeps :
      (b argv0 : String) (argv : List String) (cwd : Option String) (l : Bool)
      → is_viewer argv0 ≡ true
      → Keeps OnlyAllowed (launch_process w c b (argv0 ∷ argv) cwd l)
  unfolding launch_process
  launch_process-Keeps b argv0 argv cwd l e = Keeps-bind _ _ (stop_console-Keeps false) (λ _.
      Keeps-bind _ _ connecting-Keeps (λ _.
        Keeps-try _ _ _ (spawn-Keeps argv0 argv cwd e) (spawn_failed-Keeps b) (launched-Keeps b l)))

  moonlight_named :
      (m : Option ConsoleMoonlightConfig) (launcher argv0 : String)
      → validate_moonlight_console_request w c m launcher argv0 ≡ none
      → is_binary m argv0 ≡ true
  unfolding validate_moonlight_console_request
  moonlight_named none launcher argv0 e = ground arith
  moonlight_named (some m) launcher argv0 e = ground arith

  launcher_named :
      (b : String) (allowed : Option String) (launcher argv0 : String)
      → validate_launcher w c b allowed launcher argv0 ≡ none
      → is_named allowed argv0 ≡ true
  unfolding validate_launcher
  launcher_named b none launcher argv0 e = ground arith
  launcher_named b (some name) launcher argv0 e = ground arith

  -- a request that is not refused names the viewer of the configured backend
  pub validated_viewer :
      (b launcher argv0 : String)
      → validate_console_request w c b launcher argv0 ≡ none
      → is_viewer argv0 ≡ true
  unfolding validate_console_request is_viewer
  validated_viewer b launcher argv0 e = ground (
    arith,
    eq_iff b c.target.console_backend,
    moonlight_named c.console.moonlight launcher argv0,
    launcher_named b (allowed_launcher b) launcher argv0,
  )

  pub launch_unless-Keeps :
      (r : Option Reason) (b argv0 : String) (argv : List String) (cwd : Option String) (l : Bool)
      → (r ≡ none → is_viewer argv0 ≡ true)
      → Keeps OnlyAllowed (launch_unless w c r b (argv0 ∷ argv) cwd l)
  unfolding launch_unless
  launch_unless-Keeps (some r) b argv0 argv cwd l k = refuse-Keeps r
  launch_unless-Keeps none b argv0 argv cwd l k = launch_process-Keeps b argv0 argv cwd l (k refl)

-- ===== src/Supervisor/Console.antt =====
-- The viewer process: its start, its stop, and the report of its end.
use relay_inner_display_scri.Base.{
  suc, ℤ, pos, negsuc, String, Bool, false, not, ◌&&◌, Option, none, some, List, [], ◌∷◌,
  if◌then◌else◌, or_else, is_some, ◌==◌,
}
use relay_inner_display_scri.Exec.{
  Reason, text, formatted, formatted_with, Exn, timeout_expired, os_error, other, Exec, pure, raise,
  gets, method, modify, ◌>>=◌, ◌>>◌, try_then,
}
use relay_inner_display_scri.Config.{AppConfig, ConsoleMoonlightConfig}
use relay_inner_display_scri.Message.{Event, console_started, console_exited, session_error}
use relay_inner_display_scri.Supervisor.State.{
  ProcessCall, Host, SessionSupervisor, refresh_view_state, set_waiting_reason, text_or, call_host,
}

-- The attributes of a supervisor with no console; `suppress_exit_report` is kept apart.
unfoldable pub forget_console : SessionSupervisor → SessionSupervisor
unfolding refresh_view_state
forget_console s = refresh_view_state (record s {
  console_process = none;
  active_console_backend = none;
  active_console_uses_legacy_events = false;
})

-- `CONSOLE_LAUNCHER_ALLOWLIST.get(backend)`
unfoldable pub allowed_launcher : String → Option String
allowed_launcher backend =
    if backend == "spice"
    then some "remote-viewer"
    else if backend == "vnc"
    then some "remote-viewer"
    else if backend == "looking-glass"
    then some "looking-glass-client"
    else none

module _ (w : Host) (c : AppConfig) where
  unfoldable pub wait_again : ℤ → Exn → Exec SessionSupervisor Unit
  wait_again pid (timeout_expired _) = pure tt
  wait_again pid e = raise e

  unfoldable pub kill_late : ℤ → Exn → Exec SessionSupervisor Unit
  unfolding wait_again
  kill_late pid (timeout_expired _) = do
    call_host (ProcessCall.kill pid) (λ t. w.kill t pid)
    try_then (call_host (ProcessCall.wait pid) (λ t. w.wait t pid)) (wait_again pid) pure
  kill_late pid e = raise e

  unfoldable pub wait_for_console_process_exit : ℤ → Exec SessionSupervisor Unit
  unfolding kill_late
  wait_for_console_process_exit pid =
      try_then (call_host (ProcessCall.wait pid) (λ t. w.wait t pid)) (kill_late pid) pure

  -- the `finally` block, and the exception again
  unfoldable pub forget_and_raise : Exn → Exec SessionSupervisor Unit
  forget_and_raise e = do modify forget_console; raise e

  unfoldable pub stop_process : Bool → Option ℤ → Exec SessionSupervisor Unit
  unfolding forget_and_raise
  stop_process report_exit none =
      modify (λ s. forget_console (record s { suppress_exit_report = false }))
  stop_process report_exit (some pid) = do
    modify (λ (s : SessionSupervisor). record s { suppress_exit_report = not report_exit })
    call_host (ProcessCall.terminate pid) (λ t. w.terminate t pid)
    try_then (wait_for_console_process_exit pid) forget_and_raise (λ _. modify forget_console)

  unfoldable pub stop_console : Bool → Exec SessionSupervisor Unit
  unfolding stop_process
  stop_console report_exit = do
    process ← gets (λ (s : SessionSupervisor). s.console_process)
    stop_process report_exit process

  unfoldable pub show_waiting_state :
      String → Option (List (String × String)) → Exec SessionSupervisor Unit
  show_waiting_state reason details = do
    modify (λ (s : SessionSupervisor). record s {
      view_state = record s.view_state { waiting_reason = reason; details = details };
    })
    stop_console false
    modify refresh_view_state

  -- the texts of the rejections
  abbrev bad_launcher : String → String → String → Option Reason
  bad_launcher backend launcher argv0 = some (
      formatted "invalid_console_request: backend={} launcher={} argv0={}"
        (backend ∷ launcher ∷ argv0 ∷ []))

  unfoldable pub validate_moonlight_console_request :
      Option ConsoleMoonlightConfig → String → String → Option Reason
  validate_moonlight_console_request none launcher argv0 =
      some (text "invalid_console_request: backend=moonlight is not configured")
  validate_moonlight_console_request (some m) launcher argv0 =
      if launcher == m.binary && argv0 == m.binary
      then none
      else bad_launcher "moonlight" launcher argv0

  unfoldable pub validate_launcher : String → Option String → String → String → Option Reason
  validate_launcher backend none launcher argv0 =
      some (formatted "invalid_console_request: backend={} is not supported" (backend ∷ []))
  validate_launcher backend (some allowed) launcher argv0 =
      if text_or (w.path_name launcher) launcher == allowed
        && text_or (w.path_name argv0) argv0 == allowed
      then none
      else bad_launcher backend launcher argv0

  -- `_validate_console_request`, for the first argument `argv0`; a validated message has one
  unfoldable pub validate_console_request : String → String → String → Option Reason
  unfolding validate_moonlight_console_request validate_launcher allowed_launcher
  validate_console_request backend launcher argv0 =
      if not (backend == c.target.console_backend)
      then some (
          formatted "invalid_console_request: backend={} does not match configured backend={}"
            (backend ∷ c.target.console_backend ∷ []))
      else if backend == "moonlight"
      then validate_moonlight_console_request c.console.moonlight launcher argv0
      else validate_launcher backend (allowed_launcher backend) launcher argv0

  -- the validation comes to look at the first argument
  abbrev pub reads_argv0 : String → Bool
  reads_argv0 backend =
      if backend == "moonlight"
      then is_some c.console.moonlight
      else is_some (allowed_launcher backend)

  unfoldable pub refuse : Reason → SessionSupervisor → List Event × SessionSupervisor
  refuse reason s =
      (session_error reason ∷ [], refresh_view_state (set_waiting_reason "degraded" s))

  unfoldable pub spawn_failed : String → Exn → Exec SessionSupervisor (List Event)
  spawn_failed backend (os_error e) =
      method (refuse (formatted_with "viewer_launch_failed: backend={}: {}" (backend ∷ []) e))
  spawn_failed backend e = raise e

  -- the console has started
  unfoldable pub console_launched :
      String → Bool → ℤ → SessionSupervisor → List Event × SessionSupervisor
  console_launched backend legacy_events pid s = (
    console_started pid (if legacy_events then none else some backend) ∷ [],
    refresh_view_state (record s {
      console_process = some pid;
      active_console_backend = some backend;
      suppress_exit_report = false;
      active_console_uses_legacy_events = legacy_events;
    }),
  )

  unfoldable pub connecting : SessionSupervisor → SessionSupervisor
  connecting s = record s {
    view_state = record s.view_state { waiting_reason = "connecting"; details = none };
  }

  unfoldable pub launch_process :
      String → List String → Option String → Bool → Exec SessionSupervisor (List Event)
  unfolding spawn_failed console_launched
  launch_process backend argv cwd legacy_events = do
    stop_console false
    modify connecting
    try_then (call_host (ProcessCall.spawn argv cwd) (λ t. w.spawn t argv cwd))
        (spawn_failed backend) (λ pid. method (console_launched backend legacy_events pid))

  unfoldable pub launch_unless :
      Option Reason
      → String
      → List String
      → Option String
      → Bool
      → Exec SessionSupervisor (List Event)
  unfolding refuse
  launch_unless (some reason) backend argv cwd legacy_events = method (refuse reason)
  launch_unless none backend argv cwd legacy_events = launch_process backend argv cwd legacy_events

  -- `argv[0]` of an empty list is an error
  unfoldable pub launch_console :
      String → String → List String → Option String → Bool → Exec SessionSupervisor (List Event)
  unfolding launch_unless
  launch_console backend launcher [] cwd legacy_events =
      if backend == c.target.console_backend && reads_argv0 backend
      then raise (other (text "list index out of range"))
      else launch_unless (validate_console_request backend launcher "") backend [] cwd legacy_events
  launch_console backend launcher (argv0 ∷ argv) cwd legacy_events =
      launch_unless (validate_console_request backend launcher argv0) backend (argv0 ∷ argv) cwd
        legacy_events

  -- `max(exit_status, 0)` and the number of the signal
  unfoldable pub exit_code : ℤ → ℤ
  exit_code (pos n) = pos n
  exit_code (negsuc n) = pos 0

  unfoldable pub exit_signal : ℤ → ℤ
  exit_signal (pos n) = pos 0
  exit_signal (negsuc n) = pos (suc n)

  unfoldable pub console_ended : ℤ → SessionSupervisor → Option Event × SessionSupervisor
  unfolding exit_code exit_signal
  console_ended status s =
      let backend = or_else s.active_console_backend c.target.console_backend in
      let event =
        console_exited (exit_code status) (exit_signal status)
          (if s.active_console_uses_legacy_events then none else some backend) in
      let s₁ = refresh_view_state (
        set_waiting_reason "reconnecting"
          (record s { console_process = none; active_console_backend = none })) in
      (
        (if s.suppress_exit_report then none else some event),
        record s₁ { suppress_exit_report = false; active_console_uses_legacy_events = false },
      )

  abbrev pub exit_status : SessionSupervisor → Option ℤ
  exit_status s = elim s.console_process [ none ↦ none | some pid ↦ w.poll s.history pid ]

  unfoldable pub report_status : Option ℤ → SessionSupervisor → Option Event × SessionSupervisor
  unfolding console_ended
  report_status none s = (none, s)
  report_status (some status) s = console_ended status s

  -- the state after the poll, which is a call as any other
  unfoldable pub polled : SessionSupervisor → SessionSupervisor
  polled s = record s {
    history = elim s.console_process [
      | none ↦ s.history
      | some pid ↦ ProcessCall.poll pid ∷ s.history
    ];
  }

  unfoldable pub poll_console : SessionSupervisor → Option Event × SessionSupervisor
  unfolding report_status polled
  poll_console s = report_status (exit_status s) (polled s)

-- ===== src/Daemon/Validity/Loop.antt =====
-- Validity from the constructor through `start` and any rounds of the loop.
use relay_inner_display_scri.Base.{
  ℕ, String, Bool, true, Option, none, some, List, [], ◌∷◌, arith, one_of, ◌==◌, false,
}
use relay_inner_display_scri.Exec.{
  Reason, Exn, runtime_validation_error, power_button_error, os_error, timeout_expired, Exec, pure,
  raise, modify, ◌>>=◌,
}
use relay_inner_display_scri.Exec.Keeps.{Keeps, keeps_rules, Keeps-bind, Keeps-if, Keeps-pure}
use relay_inner_display_scri.Config.{AppConfig, ConsoleLookingGlassConfig, ConsoleMoonlightConfig}
use relay_inner_display_scri.Message.{Event}
use relay_inner_display_scri.Services.{Services}
use relay_inner_display_scri.Daemon.State.{Daemon, new_daemon, persist_state}
use relay_inner_display_scri.Daemon.PairState.{set_startup_error}
use relay_inner_display_scri.Daemon.Pairing.{with_moonlight, no_moonlight_config}
use relay_inner_display_scri.Daemon.Session.{on_session_disconnected}
use relay_inner_display_scri.Daemon.Startup.{
  Version, version_failed, version_or_invalid, moonlight_version, check_moonlight_binary,
  validate_moonlight_startup, looking_glass_binary, configured_console_launcher, ensure_each,
  validate_runtime_dependencies, validate_console_startup_prerequisites,
  prepare_power_button_capture, startup_failed, startup_checks, start_with, start,
}
use relay_inner_display_scri.Daemon.Loop.{
  Round, deliver, handle_events, tick_and_send, round, rounds, run,
}
use relay_inner_display_scri.Daemon.Validity.{ConfigSound, IsValid}
use relay_inner_display_scri.Daemon.Validity.Failures.{persist_state-IsValid, call-IsValid}
use relay_inner_display_scri.Daemon.Validity.PowerButton.{set_startup_error-IsValid}
use relay_inner_display_scri.Daemon.Validity.Session.{
  then_persist-IsValid, on_session_disconnected-IsValid, handle_session_event-IsValid,
}
use relay_inner_display_scri.Daemon.Validity.Launch.{
  ensure_binary-IsValid, preflight-IsValid, resolved_binary-IsValid, session_user_known-IsValid,
}
use relay_inner_display_scri.Daemon.Validity.Tick.{tick-IsValid}

pub new_daemon-IsValid :
    (c : AppConfig) (b : Bool) (e : Option Reason) → ConfigSound c → IsValid c (new_daemon c b e)
unfolding new_daemon
new_daemon-IsValid c b e sound = ground arith

module _ {c : AppConfig} where
  startup_error-IsValid :
      (r : Reason) (d : Daemon) → IsValid c d → IsValid c (persist_state (set_startup_error r d))
  startup_error-IsValid r d v = persist_state-IsValid _ (set_startup_error-IsValid r d v)

  has_source-IsValid :
      (d : Daemon) → IsValid c d → IsValid c (record d { has_power_button_source = true })
  has_source-IsValid d v = ground arith

  node_name-IsValid :
      (n : String) (d : Daemon)
      → IsValid c d
      → IsValid c (record d { state = record d.state { node_name = n } })
  node_name-IsValid n d v = ground arith

  started_at-IsValid :
      (t : ℕ) (d : Daemon) → IsValid c d → IsValid c (record d { started_at = some t })
  started_at-IsValid t d v = ground arith

module _ {c : AppConfig} (w : Services) where
  version_failed-IsValid : (b : String) (e : Exn) → Keeps (IsValid c) (version_failed w c b e)
  unfolding version_failed
  version_failed-IsValid b (os_error r) = search keeps_rules
  version_failed-IsValid b (timeout_expired r) = search keeps_rules
  version_failed-IsValid b _ = search keeps_rules

  version_or_invalid-IsValid :
      (o : String) (n : ℕ) (v : Option Version) → Keeps (IsValid c) (version_or_invalid w c o n v)
  unfolding version_or_invalid
  version_or_invalid-IsValid o n none = search keeps_rules
  version_or_invalid-IsValid o n (some v) = search keeps_rules

  moonlight_version-IsValid : (b : String) → Keeps (IsValid c) (moonlight_version w c b)
  unfolding moonlight_version
  moonlight_version-IsValid b =
      search
        (
          keeps_rules, resolved_binary-IsValid, session_user_known-IsValid, call-IsValid,
          version_failed-IsValid, version_or_invalid-IsValid,
        )
        depth 9

  check_binary-IsValid :
      (m : ConsoleMoonlightConfig) → Keeps (IsValid c) (check_moonlight_binary w c m)
  unfolding check_moonlight_binary
  check_binary-IsValid m =
      search (keeps_rules, ensure_binary-IsValid, moonlight_version-IsValid) depth 8

  validate_startup-IsValid :
      (m : ConsoleMoonlightConfig) → Keeps (IsValid c) (validate_moonlight_startup w c m)
  unfolding validate_moonlight_startup
  validate_startup-IsValid m = search (keeps_rules, check_binary-IsValid) depth 10

  looking_glass_binary-IsValid :
      (o : Option ConsoleLookingGlassConfig) → Keeps (IsValid c) (looking_glass_binary w c o)
  unfolding looking_glass_binary
  looking_glass_binary-IsValid none = search keeps_rules
  looking_glass_binary-IsValid (some l) = search keeps_rules

  with_moonlight-IsValid :
      {A : Type 0} (k : ConsoleMoonlightConfig → Exec Daemon A) (o : Option ConsoleMoonlightConfig)
      → ((m : ConsoleMoonlightConfig) → Keeps (IsValid c) (k m))
      → Keeps (IsValid c) (with_moonlight o k (raise no_moonlight_config))
  with_moonlight-IsValid k none kept = search keeps_rules
  with_moonlight-IsValid k (some m) kept = kept m

  launcher-IsValid : Keeps (IsValid c) (configured_console_launcher w c)
  unfolding configured_console_launcher
  launcher-IsValid =
      Keeps-if (c.target.console_backend == "looking-glass") _ _ (looking_glass_binary-IsValid _) (
        Keeps-if (c.target.console_backend == "moonlight") _ _
          (with_moonlight-IsValid _ _ (λ m. Keeps-pure _)) (Keeps-pure _))

  ensure_each-IsValid : (seen bs : List String) → Keeps (IsValid c) (ensure_each w c seen bs)
  unfolding ensure_each
  ensure_each-IsValid seen [] = Keeps-pure tt
  ensure_each-IsValid seen (b ∷ bs) =
      Keeps-if (one_of b seen) _ _ (ensure_each-IsValid seen bs)
        (Keeps-bind _ _ (ensure_binary-IsValid w b) (λ _. ensure_each-IsValid (b ∷ seen) bs))

  dependencies-IsValid : Keeps (IsValid c) (validate_runtime_dependencies w c)
  unfolding validate_runtime_dependencies
  dependencies-IsValid = search (keeps_rules, launcher-IsValid, ensure_each-IsValid) depth 8

  prerequisites-IsValid : Keeps (IsValid c) (validate_console_startup_prerequisites w c)
  unfolding validate_console_startup_prerequisites
  prerequisites-IsValid =
      Keeps-if (c.target.console_backend == "looking-glass") _ _ (preflight-IsValid w _) (
        Keeps-if (c.target.console_backend == "moonlight") _ _
          (with_moonlight-IsValid _ _ validate_startup-IsValid) (Keeps-pure tt))

  capture-IsValid : Keeps (IsValid c) (prepare_power_button_capture w c)
  unfolding prepare_power_button_capture
  capture-IsValid = search (keeps_rules, call-IsValid, has_source-IsValid) depth 9

  startup_failed-IsValid : (e : Exn) → Keeps (IsValid c) (startup_failed w c e)
  unfolding startup_failed
  startup_failed-IsValid (power_button_error r) = search (keeps_rules, startup_error-IsValid)
  startup_failed-IsValid (runtime_validation_error r) = search (keeps_rules, startup_error-IsValid)
  startup_failed-IsValid _ = search keeps_rules

  checks-IsValid : Keeps (IsValid c) (startup_checks w c)
  unfolding startup_checks
  checks-IsValid =
      search (keeps_rules, dependencies-IsValid, prerequisites-IsValid, capture-IsValid) depth 8

  start_with-IsValid : (e : Option Reason) → Keeps (IsValid c) (start_with w c e)
  unfolding start_with
  start_with-IsValid none =
      search
        (
          keeps_rules, call-IsValid, node_name-IsValid, checks-IsValid, startup_failed-IsValid,
          then_persist-IsValid,
        )
        depth 9
  start_with-IsValid (some r) = search (keeps_rules, startup_error-IsValid)

  start-IsValid : (now : ℕ) → Keeps (IsValid c) (start w c now)
  unfolding start
  start-IsValid now = search (keeps_rules, started_at-IsValid, start_with-IsValid) depth 8

  hang_up-IsValid :
      {A : Type 0} (a : A) → Keeps (IsValid c) (modify on_session_disconnected >>= λ _. pure a)
  hang_up-IsValid a = search (keeps_rules, on_session_disconnected-IsValid)

  handle_events-IsValid :
      (r : Round) (n : ℕ) (es : List (ℕ × Event)) → Keeps (IsValid c) (handle_events w c r n es)
  unfolding handle_events
  handle_events-IsValid r n [] = Keeps-pure _
  handle_events-IsValid r n ((now, e) ∷ es) =
      Keeps-bind _ _ (handle_session_event-IsValid w now e) (λ a.
        Keeps-if (deliver r.accepts n a).1 _ _
          (handle_events-IsValid r (deliver r.accepts n a).0 es) (hang_up-IsValid _))

  tick_and_send-IsValid : (r : Round) (n : ℕ) → Keeps (IsValid c) (tick_and_send w c r n)
  unfolding tick_and_send
  tick_and_send-IsValid r n =
      search (keeps_rules, tick-IsValid, on_session_disconnected-IsValid) depth 8

  round-IsValid : (r : Round) → Keeps (IsValid c) (round w c r)
  unfolding round
  round-IsValid r =
      search
        (keeps_rules, on_session_disconnected-IsValid, handle_events-IsValid, tick_and_send-IsValid)
        depth 10

  rounds-IsValid : (rs : List Round) → Keeps (IsValid c) (rounds w c rs)
  unfolding rounds
  rounds-IsValid [] = Keeps-pure tt
  rounds-IsValid (r ∷ rs) = Keeps-bind _ _ (round-IsValid r) (λ _. rounds-IsValid rs)

-- Whatever the outside answers and whatever the session sends, and also where an exception ends
-- the loop, a daemon that `run` has built and driven is valid, if the configured initial
-- reconnect delay is at most the maximal one.
pub run-IsValid :
    (w : Services) (c : AppConfig) (startup_error : Option Reason) (now : ℕ) (rs : List Round)
    → ConfigSound c
    → IsValid c (run w c startup_error now rs).1
unfolding run
run-IsValid w c startup_error now rs sound =
    (Keeps-bind _ _ (start-IsValid w now) (λ _. rounds-IsValid w rs)).at _
      (new_daemon-IsValid c false startup_error sound)

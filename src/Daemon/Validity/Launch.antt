-- ===== src/Daemon/Validity/Launch.antt =====
-- Validity through the preparation of a launch.
use relay_inner_display_scri.Base.{String, Option, none, some, List, arith}
use relay_inner_display_scri.Exec.{Exn, os_error, timeout_expired, Outcome, raise}
use relay_inner_display_scri.Exec.Keeps.{
  Keeps, keeps_rules, Keeps-bind, Keeps-gets, Keeps-if, Keeps-pure,
}
use relay_inner_display_scri.Config.{
  AppConfig, ConsoleVncConfig, ConsoleLookingGlassConfig, ConsoleMoonlightConfig,
}
use relay_inner_display_scri.Services.{Services, UserEntry}
use relay_inner_display_scri.Daemon.State.{Daemon}
use relay_inner_display_scri.Daemon.Pairing.{with_moonlight, no_moonlight_config}
use relay_inner_display_scri.Daemon.Preflight.{
  ensure_binary_available, user_can_read, session_user_can_read_path, open_failed, check_access,
  check_shared_memory, validate_looking_glass_preflight,
}
use relay_inner_display_scri.Daemon.Launch.{
  known_or_invalid, resolved_binary, session_user_known, moonlight_command_failed,
  run_moonlight_list, moonlight_list_apps, launch_spice, launch_vnc, launch_looking_glass,
  require_app, launch_moonlight, missing_config, launch_vnc_of, launch_looking_glass_of,
  prepare_console_launch,
}
use relay_inner_display_scri.Daemon.Validity.{IsValid}
use relay_inner_display_scri.Daemon.Validity.Failures.{call-IsValid}

module _ {c : AppConfig} where
  look-IsValid :
      {A : Type 0} (f : Daemon → Outcome A) → Keeps (IsValid c) (λ (d : Daemon). (f d, d))
  look-IsValid f = record { at = λ s v. v }

  vnc_endpoint-IsValid :
      (e : String) (d : Daemon)
      → IsValid c d
      → IsValid c (record d { state = record d.state { vnc_endpoint = some e } })
  vnc_endpoint-IsValid e d v = ground arith

  shm_file-IsValid :
      (e : String) (d : Daemon)
      → IsValid c d
      → IsValid c (record d { state = record d.state { looking_glass_shm_file = some e } })
  shm_file-IsValid e d v = ground arith

module _ {c : AppConfig} (w : Services) where
  pub ensure_binary-IsValid : (b : String) → Keeps (IsValid c) (ensure_binary_available w b)
  unfolding ensure_binary_available
  ensure_binary-IsValid b = search keeps_rules depth 10

  user_can_read-IsValid :
      (p : String) (u : Option UserEntry) → Keeps (IsValid c) (user_can_read w p u)
  unfolding user_can_read
  user_can_read-IsValid p none = search keeps_rules
  user_can_read-IsValid p (some u) = search (keeps_rules, look-IsValid)

  open_failed-IsValid : (p : String) (e : Exn) → Keeps (IsValid c) (open_failed w p e)
  unfolding open_failed
  open_failed-IsValid p (os_error r) = search keeps_rules
  open_failed-IsValid p _ = search keeps_rules

  can_read-IsValid : (p : String) → Keeps (IsValid c) (session_user_can_read_path w p)
  unfolding session_user_can_read_path
  can_read-IsValid p = search (keeps_rules, user_can_read-IsValid)

  check_access-IsValid : (p : String) → Keeps (IsValid c) (check_access w p)
  unfolding check_access
  check_access-IsValid p =
      search (keeps_rules, can_read-IsValid, look-IsValid, open_failed-IsValid) depth 8

  check_shared_memory-IsValid :
      (l : ConsoleLookingGlassConfig) → Keeps (IsValid c) (check_shared_memory w l)
  unfolding check_shared_memory
  check_shared_memory-IsValid l =
      search (keeps_rules, ensure_binary-IsValid, check_access-IsValid) depth 10

  pub preflight-IsValid :
      (l : Option ConsoleLookingGlassConfig)
      → Keeps (IsValid c) (validate_looking_glass_preflight w l)
  unfolding validate_looking_glass_preflight
  preflight-IsValid none = search keeps_rules
  preflight-IsValid (some l) = check_shared_memory-IsValid l

  pub resolved_binary-IsValid : (b : String) → Keeps (IsValid c) (resolved_binary w c b)
  unfolding resolved_binary
  resolved_binary-IsValid b = search keeps_rules depth 8

  known-IsValid : (entry : Option UserEntry) → Keeps (IsValid c) (known_or_invalid w c entry)
  unfolding known_or_invalid
  known-IsValid none = search keeps_rules
  known-IsValid (some u) = search keeps_rules

  pub session_user_known-IsValid : Keeps (IsValid c) (session_user_known w c)
  unfolding session_user_known
  session_user_known-IsValid =
      Keeps-bind _ _ (Keeps-gets _) (λ entry. Keeps-if _ _ _ (Keeps-pure tt) (known-IsValid entry))

  command_failed-IsValid :
      (k : List String) (e : Exn) → Keeps (IsValid c) (moonlight_command_failed w c k e)
  unfolding moonlight_command_failed
  command_failed-IsValid k (os_error r) = search keeps_rules
  command_failed-IsValid k (timeout_expired r) = search keeps_rules
  command_failed-IsValid k _ = search keeps_rules

  run_moonlight_list-IsValid :
      (m : ConsoleMoonlightConfig) → Keeps (IsValid c) (run_moonlight_list w c m)
  unfolding run_moonlight_list
  run_moonlight_list-IsValid m =
      search
        (
          keeps_rules, resolved_binary-IsValid, session_user_known-IsValid, call-IsValid,
          command_failed-IsValid,
        )
        depth 8

  list_apps-IsValid : (m : ConsoleMoonlightConfig) → Keeps (IsValid c) (moonlight_list_apps w c m)
  unfolding moonlight_list_apps
  list_apps-IsValid m = search (keeps_rules, run_moonlight_list-IsValid) depth 8

  launch_spice-IsValid : Keeps (IsValid c) (launch_spice w c)
  unfolding launch_spice
  launch_spice-IsValid = search (keeps_rules, call-IsValid) depth 8

  launch_vnc-IsValid : (v : ConsoleVncConfig) → Keeps (IsValid c) (launch_vnc w c v)
  unfolding launch_vnc
  launch_vnc-IsValid v = search (keeps_rules, call-IsValid, vnc_endpoint-IsValid) depth 8

  launch_looking_glass-IsValid :
      (l : ConsoleLookingGlassConfig) → Keeps (IsValid c) (launch_looking_glass w c l)
  unfolding launch_looking_glass
  launch_looking_glass-IsValid l = search (keeps_rules, preflight-IsValid, shm_file-IsValid) depth 8

  require_app-IsValid : (m : ConsoleMoonlightConfig) → Keeps (IsValid c) (require_app w c m)
  unfolding require_app
  require_app-IsValid m = search (keeps_rules, list_apps-IsValid) depth 8

  launch_moonlight-IsValid :
      (m : ConsoleMoonlightConfig) → Keeps (IsValid c) (launch_moonlight w c m)
  unfolding launch_moonlight
  launch_moonlight-IsValid m = search (keeps_rules, require_app-IsValid) depth 8

  vnc_of-IsValid : (o : Option ConsoleVncConfig) → Keeps (IsValid c) (launch_vnc_of w c o)
  unfolding launch_vnc_of missing_config
  vnc_of-IsValid none = search keeps_rules
  vnc_of-IsValid (some v) = launch_vnc-IsValid v

  looking_glass_of-IsValid :
      (o : Option ConsoleLookingGlassConfig) → Keeps (IsValid c) (launch_looking_glass_of w c o)
  unfolding launch_looking_glass_of missing_config
  looking_glass_of-IsValid none = search keeps_rules
  looking_glass_of-IsValid (some l) = launch_looking_glass-IsValid l

  moonlight_of-IsValid :
      (o : Option ConsoleMoonlightConfig)
      → Keeps (IsValid c) (with_moonlight o (launch_moonlight w c) (raise no_moonlight_config))
  moonlight_of-IsValid none = search keeps_rules
  moonlight_of-IsValid (some m) = launch_moonlight-IsValid m

  pub prepare_console_launch-IsValid : Keeps (IsValid c) (prepare_console_launch w c)
  unfolding prepare_console_launch
  prepare_console_launch-IsValid =
      search
        (
          keeps_rules, launch_spice-IsValid, vnc_of-IsValid, looking_glass_of-IsValid,
          moonlight_of-IsValid,
        )
        depth 10

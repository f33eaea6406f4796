-- ===== src/Examples/ConfigRuns.antt =====
-- The theorems on the configuration at concrete files.
use Prim.Native.Char.{code}
use text.Mathlib.Text.{starts_with}
use relay_inner_display_scri.Base.{
  ℕ, zero, suc, ◌-◌, ◌≡◌, refl, String, Bool, true, false, ap, ◌&&◌, Option, none, some, List, [],
  ◌∷◌, leb, if◌then◌else◌, pos, concat,
}
use relay_inner_display_scri.Config.{AppConfig, Python}
use relay_inner_display_scri.Config.Checked.{Checked, accepted, failed, refused}
use relay_inner_display_scri.Config.Toml.{Table, text_value, integer, table, no_entries, entry}
use relay_inner_display_scri.Config.Platform.{Platform}
use relay_inner_display_scri.Config.Moonlight.{int_limit}
use relay_inner_display_scri.Config.Parse.{parse_config}
use relay_inner_display_scri.Config.Load.{Loaded, toml}
use relay_inner_display_scri.Config.Sound.{IsSound}
use relay_inner_display_scri.Config.Sound.Whole.{parse_config-IsSound}
use relay_inner_display_scri.Config.Escapes.{parse_config-failures}
use relay_inner_display_scri.Examples.{python, outside}
use relay_inner_display_scri.Exec.{ok}
use relay_inner_display_scri.Daemon.Loop.{run}
use relay_inner_display_scri.Daemon.Validity.{IsValid}
use relay_inner_display_scri.Daemon.Entry.{
  configured, or_fallback, configured-run-IsValid, IsLaunched, parse_config-IsLaunched,
}

-- POSIX paths that are already normal
abbrev pub platform : Platform
platform = record {
  python = python;
  path = λ s. s;
  is_absolute = λ s. starts_with s "/";
  file_name = λ s. s;
  joined = λ d n. concat (d ∷ "/" ∷ n ∷ []);
  is_below = λ root child. starts_with child root;
  decimal_value = λ ch. if leb 48 (code ch) && leb (code ch) 57 then some (code ch - 48) else none;
}

abbrev pub strings : List (String × String) → Table → Table
strings [] rest = rest
strings ((k, v) ∷ kvs) rest = entry k (text_value v) (strings kvs rest)

abbrev target_table : Table
target_table = entry "vmid" (integer (pos 100)) (
    strings (("node_name", "auto") ∷ ("guest_os", "linux") ∷ ("console_backend", "moonlight") ∷ [])
      no_entries)

abbrev runtime_table : Table
runtime_table =
    strings
      (("run_dir", "/run/relay")
        ∷ ("control_socket", "/run/relay/s.sock")
        ∷ ("log_namespace", "relay")
        ∷ [])
      no_entries

abbrev pub policy_table : Table
policy_table = entry "poll_interval_ms" (integer (pos 1000)) (
    entry "reconnect_initial_ms" (integer (pos 500)) (
      entry "reconnect_max_ms" (integer (pos 8000))
        (entry "command_timeout_s" (integer (pos 10)) no_entries)))

abbrev moonlight_table : String → Table
moonlight_table resolution =
    strings (("host", "stream.local") ∷ ("resolution", resolution) ∷ []) no_entries

abbrev moonlight_file : String → Table
moonlight_file resolution = entry "target" (table target_table) (
    entry "runtime" (table runtime_table) (
      entry "policy" (table policy_table) (
        entry "console"
          (table (
            entry "artifact_dir" (text_value "/run/relay/console")
              (entry "moonlight" (table (moonlight_table resolution)) no_entries)))
          no_entries)))

abbrev moonlight_config : AppConfig
moonlight_config = record {
  target = record {
    vmid = 100;
    node_name = "auto";
    guest_os = "linux";
    console_backend = "moonlight";
  };
  runtime = record {
    run_dir = "/run/relay";
    control_socket = "/run/relay/s.sock";
    spice_vv_path = "/run/relay/console/spice-current.vv";
    log_namespace = "relay";
  };
  policy = record {
    poll_interval_ms = 1000;
    reconnect_initial_ms = 500;
    reconnect_max_ms = 8000;
    command_timeout_s = 10;
    dpms_policy = "vm-power";
    dpms_off_delay_ms = 5000;
    power_state_stabilize_ms = 3000;
    power_button_action_when_running = "shutdown";
    power_button_action_when_stopped = "start";
    shutdown_timeout_s = 90;
  };
  display = record { output_name = ""; power_helper = "wlr-randr"; drm_compatibility = "auto" };
  kiosk = record { compositor = "auto"; resolved_compositor = "sway" };
  input = record {
    power_button_event = "/dev/input/by-path/platform-i8042-serio-0-event-power";
    forward_power_button = false;
    debounce_ms = 2000;
  };
  console = record {
    artifact_dir = "/run/relay/console";
    spice = none;
    vnc = none;
    looking_glass = none;
    moonlight = some (record {
      host = "stream.local";
      binary = "moonlight";
      base_port = 47989;
      app = "Desktop";
      state_dir = "/var/lib/relayinner-display/moonlight";
      resolution = some "1920x1080";
      quit_app_after_session = false;
    });
  };
}

file_is_parsed : parse_config platform (moonlight_file " 01920X1080 ") ≡ accepted moonlight_config
unfolding parse_config relay_inner_display_scri.Config.Fields.require_table
    relay_inner_display_scri.Config.Fields.optional_table
    relay_inner_display_scri.Config.Fields.require_positive_int
    relay_inner_display_scri.Config.Fields.require_non_empty_string
    relay_inner_display_scri.Config.Fields.non_empty_string_of
    relay_inner_display_scri.Config.Fields.optional_absolute_path_or_none
    relay_inner_display_scri.Config.Fields.optional_absolute_path
    relay_inner_display_scri.Config.Fields.optional_non_empty_string
    relay_inner_display_scri.Config.Fields.require_subset_keys
    relay_inner_display_scri.Config.Fields.require_empty_table
    relay_inner_display_scri.Config.Fields.require_only_keys
    relay_inner_display_scri.Config.Fields.optional_command_or_absolute_path
    relay_inner_display_scri.Config.Fields.optional_bool
    relay_inner_display_scri.Config.Fields.optional_non_negative_int
    relay_inner_display_scri.Config.Fields.optional_port
    relay_inner_display_scri.Config.Fields.optional_string
    relay_inner_display_scri.Config.Fields.positive_of
    relay_inner_display_scri.Config.Fields.require_absolute_path
    relay_inner_display_scri.Config.Fields.require_child_path
    relay_inner_display_scri.Config.Moonlight.digit_run
    relay_inner_display_scri.Config.Moonlight.int_of
    relay_inner_display_scri.Config.Moonlight.is_hostname
    relay_inner_display_scri.Config.Moonlight.match_resolution
    relay_inner_display_scri.Config.Moonlight.optional_moonlight_resolution
    relay_inner_display_scri.Config.Moonlight.require_moonlight_host
    relay_inner_display_scri.Config.Console.parse_console_config
    relay_inner_display_scri.Config.Console.parse_backend
    relay_inner_display_scri.Config.Console.parse_moonlight
    relay_inner_display_scri.Config.Console.parse_moonlight_table
    relay_inner_display_scri.Config.Parse.parse_target
    relay_inner_display_scri.Config.Parse.parse_runtime
    relay_inner_display_scri.Config.Parse.parse_policy
    relay_inner_display_scri.Config.Parse.parse_input
    relay_inner_display_scri.Config.Parse.parse_display_config
    relay_inner_display_scri.Config.Parse.parse_kiosk_config
    relay_inner_display_scri.Config.Parse.resolve_kiosk_compositor
    relay_inner_display_scri.Config.Parse.backend_compositor
    relay_inner_display_scri.Config.moonlight_refused relay_inner_display_scri.Config.Checked.◌>>=◌
    relay_inner_display_scri.Base.strip relay_inner_display_scri.Base.show_ℕ
file_is_parsed = refl

parse_config-IsSound_example : IsSound platform (moonlight_file " 01920X1080 ") moonlight_config
parse_config-IsSound_example =
    parse_config-IsSound platform (moonlight_file " 01920X1080 ") moonlight_config file_is_parsed

ones : ℕ → String
ones zero = ""
ones (suc n) = String.◌∷◌ "1" (ones n)

abbrev long_file : Table
long_file = moonlight_file (concat (ones 4301 ∷ "x1080" ∷ []))

long_file_fails : parse_config platform long_file ≡ failed int_limit
unfolding parse_config ones relay_inner_display_scri.Config.Fields.require_table
    relay_inner_display_scri.Config.Fields.optional_table
    relay_inner_display_scri.Config.Fields.require_positive_int
    relay_inner_display_scri.Config.Fields.require_non_empty_string
    relay_inner_display_scri.Config.Fields.non_empty_string_of
    relay_inner_display_scri.Config.Fields.optional_absolute_path_or_none
    relay_inner_display_scri.Config.Fields.optional_absolute_path
    relay_inner_display_scri.Config.Fields.optional_non_empty_string
    relay_inner_display_scri.Config.Fields.require_subset_keys
    relay_inner_display_scri.Config.Fields.require_empty_table
    relay_inner_display_scri.Config.Fields.require_only_keys
    relay_inner_display_scri.Config.Fields.optional_command_or_absolute_path
    relay_inner_display_scri.Config.Fields.optional_bool
    relay_inner_display_scri.Config.Fields.optional_non_negative_int
    relay_inner_display_scri.Config.Fields.optional_port
    relay_inner_display_scri.Config.Fields.optional_string
    relay_inner_display_scri.Config.Fields.positive_of
    relay_inner_display_scri.Config.Fields.require_absolute_path
    relay_inner_display_scri.Config.Fields.require_child_path
    relay_inner_display_scri.Config.Moonlight.digit_run
    relay_inner_display_scri.Config.Moonlight.int_of
    relay_inner_display_scri.Config.Moonlight.is_hostname
    relay_inner_display_scri.Config.Moonlight.match_resolution
    relay_inner_display_scri.Config.Moonlight.optional_moonlight_resolution
    relay_inner_display_scri.Config.Moonlight.require_moonlight_host
    relay_inner_display_scri.Config.Console.parse_console_config
    relay_inner_display_scri.Config.Console.parse_backend
    relay_inner_display_scri.Config.Console.parse_moonlight
    relay_inner_display_scri.Config.Console.parse_moonlight_table
    relay_inner_display_scri.Config.Parse.parse_target
    relay_inner_display_scri.Config.Parse.parse_runtime
    relay_inner_display_scri.Config.Parse.parse_policy
    relay_inner_display_scri.Config.Parse.parse_input
    relay_inner_display_scri.Config.Parse.parse_display_config
    relay_inner_display_scri.Config.Parse.parse_kiosk_config
    relay_inner_display_scri.Config.Parse.resolve_kiosk_compositor
    relay_inner_display_scri.Config.Parse.backend_compositor
    relay_inner_display_scri.Config.moonlight_refused relay_inner_display_scri.Config.Checked.◌>>=◌
    relay_inner_display_scri.Base.strip relay_inner_display_scri.Base.show_ℕ
long_file_fails = refl

parse_config-failures_example : int_limit ≡ int_limit
parse_config-failures_example = parse_config-failures platform long_file int_limit long_file_fails

configured-run-IsValid_example :
    IsValid moonlight_config (run (outside (ok "stopped")) moonlight_config none 0 []).1
unfolding configured relay_inner_display_scri.Config.Load.load_config
configured-run-IsValid_example =
    configured-run-IsValid platform "/etc/config.toml" (toml (moonlight_file " 01920X1080 "))
      moonlight_config none (outside (ok "stopped")) 0 [] (ap or_fallback file_is_parsed)

parse_config-IsLaunched_example : IsLaunched platform (outside (ok "running")) moonlight_config
parse_config-IsLaunched_example =
    parse_config-IsLaunched platform (outside (ok "running")) moonlight_config
      (moonlight_file " 01920X1080 ") file_is_parsed

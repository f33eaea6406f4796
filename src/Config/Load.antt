-- ===== src/Config/Load.antt =====
-- `load_config` and `build_fallback_config` of relayinner_display/config.py.
use relay_inner_display_scri.Base.{String, false, none, some, [], ◌∷◌}
use relay_inner_display_scri.Exec.{Reason}
use relay_inner_display_scri.Config.{AppConfig}
use relay_inner_display_scri.Config.Checked.{Checked, failed, config_error}
use relay_inner_display_scri.Config.Toml.{Table}
use relay_inner_display_scri.Config.Platform.{Platform}
use relay_inner_display_scri.Config.Console.{default_console_artifact_dir}
use relay_inner_display_scri.Config.Parse.{parse_config}

-- What comes of reading the file and of `tomllib.loads`.
pub data Loaded : Type 0 where
  toml : Table → Loaded
  file_not_found : Loaded
  decode_error : String → Loaded
  unreadable : Reason → Loaded

unfoldable pub load_config : Platform → String → Loaded → Checked AppConfig
load_config lib path (toml raw) = parse_config lib raw
load_config lib path file_not_found = config_error "Config file not found: {}" (path ∷ [])
load_config lib path (decode_error e) = config_error "Invalid TOML in {}: {}" (path ∷ e ∷ [])
load_config lib path (unreadable r) = failed r

unfoldable pub build_fallback_config : AppConfig
build_fallback_config = record {
  target = record {
    vmid = 0;
    node_name = "unknown";
    guest_os = "unknown";
    console_backend = "spice";
  };
  runtime = record {
    run_dir = "/run/relayinner-display";
    control_socket = "/run/relayinner-display/session.sock";
    spice_vv_path = "/run/relayinner-display/console/spice-current.vv";
    log_namespace = "relayinner-display";
  };
  policy = record {
    poll_interval_ms = 2000;
    reconnect_initial_ms = 1000;
    reconnect_max_ms = 15000;
    command_timeout_s = 10;
    dpms_policy = "vm-power";
    dpms_off_delay_ms = 5000;
    power_state_stabilize_ms = 3000;
    power_button_action_when_running = "shutdown";
    power_button_action_when_stopped = "start";
    shutdown_timeout_s = 90;
  };
  display = record { output_name = ""; power_helper = "wlr-randr"; drm_compatibility = "auto" };
  kiosk = record { compositor = "auto"; resolved_compositor = "cage" };
  input = record {
    power_button_event = "/dev/input/by-path/platform-i8042-serio-0-event-power";
    forward_power_button = false;
    debounce_ms = 2000;
  };
  console = record {
    artifact_dir = default_console_artifact_dir;
    spice = some (record { vv_path = "/run/relayinner-display/console/spice-current.vv" });
    vnc = none;
    looking_glass = none;
    moonlight = none;
  };
}

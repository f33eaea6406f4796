-- ===== src/Examples.antt =====
-- One configuration, one outside and a few daemons, at which the theorems are applied.
pub mod ConfigRuns
pub mod DaemonRuns
pub mod SessionRuns
pub mod SocketRuns
pub mod SpiceFiles
pub mod InputRuns
pub mod MoonlightRuns
pub mod ProxmoxRuns
use relay_inner_display_scri.Base.{ℕ, String, Bool, true, false, Option, none, some, List, [], ◌∷◌}
use relay_inner_display_scri.Exec.{
  Reason, text, Exn, proxmox_command_error, os_error, timeout_expired, Outcome, ok, raised,
}
use relay_inner_display_scri.Config.{Python, AppConfig}
use relay_inner_display_scri.Services.{Services, FileSystem, Trace}
use relay_inner_display_scri.Daemon.State.{Daemon, new_daemon}

abbrev pub spice_config : AppConfig
spice_config = record {
  target = record { vmid = 100; node_name = "auto"; guest_os = "linux"; console_backend = "spice" };
  runtime = record {
    run_dir = "/run/relay";
    control_socket = "/run/relay/control.sock";
    spice_vv_path = "/run/relay/session.vv";
    log_namespace = "relay";
  };
  policy = record {
    poll_interval_ms = 1000;
    reconnect_initial_ms = 500;
    reconnect_max_ms = 8000;
    command_timeout_s = 10;
    dpms_policy = "off_when_vm_stopped";
    dpms_off_delay_ms = 5000;
    power_state_stabilize_ms = 3000;
    power_button_action_when_running = "shutdown";
    power_button_action_when_stopped = "start";
    shutdown_timeout_s = 60;
  };
  display = record {
    output_name = "HDMI-A-1";
    power_helper = "wlr-randr";
    drm_compatibility = "auto";
  };
  kiosk = record { compositor = "auto"; resolved_compositor = "cage" };
  input = record {
    power_button_event = "/dev/input/event0";
    forward_power_button = false;
    debounce_ms = 1500;
  };
  console = record {
    artifact_dir = "/run/relay";
    spice = some (record { vv_path = "/run/relay/session.vv" });
    vnc = none;
    looking_glass = none;
    moonlight = none;
  };
}

abbrev pub python : Python
python = record { casefold = λ s. s; ip_version = λ s. none }

abbrev files : FileSystem
files = record {
  exists = λ t p. true;
  is_dir = λ t p. false;
  is_executable = λ t p. true;
  stat = λ t p. raised (os_error (text "stat"));
  open_read_only = λ t p. ok tt;
  which = λ t b. some b;
  getpwnam = λ t u. none;
  getgrall = λ t. [];
}

-- an outside in which `qm status` answers `status`, and every other call succeeds
abbrev pub outside : Outcome String → Services
outside status = record {
  python = python;
  truncated_ms = λ (span : ℕ). 0;
  csv_rows = λ (t : String). [];
  validate_runtime_dependencies = false;
  runs_as_root = false;
  files = files;
  get_vm_status = λ t vmid. status;
  start_vm = λ t vmid. ok tt;
  shutdown_vm = λ t vmid timeout. ok tt;
  resolve_node_name = λ t name. ok name;
  request_spice_config = λ t node vmid. ok [];
  write_vv_file = λ t path config. ok tt;
  validate_vnc_configuration = λ t vmid host number. ok tt;
  probe_vnc_endpoint = λ t host port. ok tt;
  poll_presses = λ t. ok 2;
  validate_policy = λ t. ok tt;
  open_source = λ t. ok tt;
  tcp_connect = λ t host port. ok tt;
  pair_state_probe = λ t host pinned. ok "paired";
  generate_pin = λ t. "1234";
  contains_pinned_host_record = λ t. ok true;
  normalize_workspace_host = λ t. ok tt;
  run_moonlight = λ t command. ok (record { returncode = 0; stdout = ""; stderr = "" });
}

abbrev pub fresh : Daemon
fresh = new_daemon spice_config true none

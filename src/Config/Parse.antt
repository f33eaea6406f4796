-- ===== src/Config/Parse.antt =====
-- `parse_config` and `build_fallback_config` of relayinner_display/config.py.
use relay_inner_display_scri.Base.{
  String, false, not, ◌&&◌, Option, none, some, List, [], ◌∷◌, ltb, is_some, if◌then◌else◌, ◌==◌,
  one_of,
}
use relay_inner_display_scri.Exec.{text}
use relay_inner_display_scri.Config.{
  AppConfig, TargetConfig, RuntimeConfig, PolicyConfig, DisplayConfig, KioskConfig, InputConfig,
  ConsoleConfig, ConsoleSpiceConfig,
}
use relay_inner_display_scri.Config.Checked.{Checked, accepted, failed, ◌>>=◌, ◌>>◌, refuse_if}
use relay_inner_display_scri.Config.Toml.{Table}
use relay_inner_display_scri.Config.Platform.{Platform}
use relay_inner_display_scri.Config.Fields.{
  require_table, optional_table, require_non_empty_string, optional_string,
  optional_non_empty_string, require_positive_int, optional_non_negative_int, optional_bool,
  require_only_keys, require_absolute_path, optional_absolute_path, optional_absolute_path_or_none,
  require_child_path,
}
use relay_inner_display_scri.Config.Console.{parse_console_config, require_one_of}

abbrev pub supported_console_backends : List String
supported_console_backends = "looking-glass" ∷ "moonlight" ∷ "spice" ∷ "vnc" ∷ []

abbrev pub supported_display_drm_compatibility : List String
supported_display_drm_compatibility = "auto" ∷ "legacy-drm" ∷ "off" ∷ []

abbrev pub supported_kiosk_compositors : List String
supported_kiosk_compositors = "auto" ∷ "cage" ∷ "sway" ∷ []

unfoldable pub parse_display_config : Table → Checked DisplayConfig
parse_display_config t = do
  drm_compatibility ← optional_non_empty_string t "drm_compatibility" "auto"
  require_one_of drm_compatibility supported_display_drm_compatibility
      "Unsupported display.drm_compatibility={!r}; supported values: auto, legacy-drm, off"
  output_name ← optional_string t "output_name" ""
  power_helper ← optional_non_empty_string t "power_helper" "wlr-randr"
  accepted (record {
    output_name = output_name;
    power_helper = power_helper;
    drm_compatibility = drm_compatibility;
  })

-- `DEFAULT_RESOLVED_KIOSK_COMPOSITOR_BY_BACKEND[backend]`, which is also the only compositor that
-- `SUPPORTED_KIOSK_COMPOSITORS_BY_BACKEND` has for the backend; a KeyError for other backends
unfoldable pub backend_compositor : String → Checked String
backend_compositor backend =
    if backend == "moonlight"
    then accepted "sway"
    else if one_of backend ("looking-glass" ∷ "spice" ∷ "vnc" ∷ [])
    then accepted "cage"
    else failed (text "KeyError")

unfoldable pub resolve_kiosk_compositor : String → String → Checked String
resolve_kiosk_compositor backend compositor = do
  supported ← backend_compositor backend
  refuse_if (not (compositor == "auto") && not (compositor == supported))
      "Unsupported kiosk.compositor={!r} for console_backend={!r}; supported values for this backend: {}"
      (compositor ∷ backend ∷ supported ∷ [])
  accepted supported

unfoldable pub parse_kiosk_config : String → Table → Checked KioskConfig
parse_kiosk_config backend t = do
  require_only_keys t ("compositor" ∷ []) "kiosk"
  compositor ← optional_non_empty_string t "compositor" "auto"
  require_one_of compositor supported_kiosk_compositors
      "Unsupported kiosk.compositor={!r}; supported values: auto, cage, sway"
  resolved ← resolve_kiosk_compositor backend compositor
  accepted (record { compositor = compositor; resolved_compositor = resolved })

-- the `[target]` table and the test of its backend
unfoldable pub parse_target : Table → Checked TargetConfig
parse_target t = do
  vmid ← require_positive_int t "vmid"
  node_name ← require_non_empty_string t "node_name"
  guest_os ← require_non_empty_string t "guest_os"
  console_backend ← require_non_empty_string t "console_backend"
  require_one_of console_backend supported_console_backends
      "Unsupported console_backend={!r}; supported values: looking-glass, moonlight, spice, vnc"
  accepted (record {
    vmid = vmid;
    node_name = node_name;
    guest_os = guest_os;
    console_backend = console_backend;
  })

-- the `[policy]` table and the tests that follow it
unfoldable pub parse_policy : Table → Checked PolicyConfig
parse_policy t = do
  poll_interval_ms ← require_positive_int t "poll_interval_ms"
  reconnect_initial_ms ← require_positive_int t "reconnect_initial_ms"
  reconnect_max_ms ← require_positive_int t "reconnect_max_ms"
  command_timeout_s ← require_positive_int t "command_timeout_s"
  dpms_policy ← optional_non_empty_string t "dpms_policy" "vm-power"
  dpms_off_delay_ms ← optional_non_negative_int t "dpms_off_delay_ms" 5000
  power_state_stabilize_ms ← optional_non_negative_int t "power_state_stabilize_ms" 3000
  when_running ← optional_non_empty_string t "power_button_action_when_running" "shutdown"
  when_stopped ← optional_non_empty_string t "power_button_action_when_stopped" "start"
  shutdown_timeout_s ← optional_non_negative_int t "shutdown_timeout_s" 90
  refuse_if (ltb reconnect_max_ms reconnect_initial_ms)
      "policy.reconnect_initial_ms must be <= policy.reconnect_max_ms" []
  require_one_of dpms_policy ("vm-power" ∷ [])
      "Unsupported dpms_policy={!r}; supported values: vm-power"
  require_one_of when_running ("shutdown" ∷ [])
      "Unsupported power_button_action_when_running={!r}; supported values: shutdown"
  require_one_of when_stopped ("start" ∷ [])
      "Unsupported power_button_action_when_stopped={!r}; supported values: start"
  accepted (record {
    poll_interval_ms = poll_interval_ms;
    reconnect_initial_ms = reconnect_initial_ms;
    reconnect_max_ms = reconnect_max_ms;
    command_timeout_s = command_timeout_s;
    dpms_policy = dpms_policy;
    dpms_off_delay_ms = dpms_off_delay_ms;
    power_state_stabilize_ms = power_state_stabilize_ms;
    power_button_action_when_running = when_running;
    power_button_action_when_stopped = when_stopped;
    shutdown_timeout_s = shutdown_timeout_s;
  })

module _ (lib : Platform) where
  abbrev spice_path_or : ConsoleConfig → Option ConsoleSpiceConfig → String
  spice_path_or console none = lib.joined console.artifact_dir "spice-current.vv"
  spice_path_or console (some s) = s.vv_path

  -- `runtime_spice_vv_path`
  abbrev pub runtime_vv_path : Option String → ConsoleConfig → String
  runtime_vv_path none console = spice_path_or console console.spice
  runtime_vv_path (some path) console = path

  -- the `[runtime]` table and the tests that follow it
  unfoldable pub parse_runtime : Table → Option String → ConsoleConfig → Checked RuntimeConfig
  parse_runtime t legacy console = do
    run_dir ← require_absolute_path lib t "run_dir"
    control_socket ← require_absolute_path lib t "control_socket"
    log_namespace ← require_non_empty_string t "log_namespace"
    require_child_path lib run_dir control_socket "runtime.control_socket"
    require_child_path lib run_dir console.artifact_dir "console.artifact_dir"
    require_child_path lib run_dir (runtime_vv_path legacy console) "runtime.spice_vv_path"
    accepted (record {
      run_dir = run_dir;
      control_socket = control_socket;
      spice_vv_path = runtime_vv_path legacy console;
      log_namespace = log_namespace;
    })

  unfoldable pub parse_input : Table → Checked InputConfig
  parse_input t = do
    power_button_event ←
        optional_absolute_path lib t "power_button_event"
          "/dev/input/by-path/platform-i8042-serio-0-event-power"
    forward_power_button ← optional_bool t "forward_power_button" false
    debounce_ms ← optional_non_negative_int t "debounce_ms" 2000
    accepted (record {
      power_button_event = power_button_event;
      forward_power_button = forward_power_button;
      debounce_ms = debounce_ms;
    })

  unfoldable pub parse_config : Table → Checked AppConfig
  parse_config raw = do
    target_table ← require_table raw "target"
    runtime_table ← require_table raw "runtime"
    policy_table ← require_table raw "policy"
    display_table ← optional_table raw "display"
    kiosk_table ← optional_table raw "kiosk"
    input_table ← optional_table raw "input"
    console_table ← optional_table raw "console"
    target ← parse_target target_table
    let backend = target.console_backend
    legacy ← optional_absolute_path_or_none lib runtime_table "spice_vv_path"
    refuse_if (not (backend == "spice") && is_some legacy)
        "runtime.spice_vv_path is only supported for console_backend='spice'" []
    console ← parse_console_config lib backend console_table legacy
    runtime ← parse_runtime runtime_table legacy console
    display ← parse_display_config display_table
    kiosk ← parse_kiosk_config backend kiosk_table
    input ← parse_input input_table
    policy ← parse_policy policy_table
    accepted (record {
      target = target;
      runtime = runtime;
      policy = policy;
      display = display;
      kiosk = kiosk;
      input = input;
      console = console;
    })

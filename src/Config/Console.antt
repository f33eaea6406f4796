-- ===== src/Config/Console.antt =====
-- `_parse_console_config` of relayinner_display/config.py: the table of the chosen backend, with the
-- other three refused.
use relay_inner_display_scri.Base.{
  String, true, false, not, Option, none, some, List, [], ◌∷◌, if◌then◌else◌, ◌==◌, one_of,
}
use relay_inner_display_scri.Config.{
  ConsoleConfig, ConsoleMoonlightConfig, moonlight_refused, default_moonlight_base_port,
  default_moonlight_app,
}
use relay_inner_display_scri.Config.Checked.{Checked, accepted, ◌>>=◌, ◌>>◌, refuse_if}
use relay_inner_display_scri.Config.Toml.{Table, has_entries}
use relay_inner_display_scri.Config.Platform.{Platform}
use relay_inner_display_scri.Config.Fields.{
  optional_table, optional_non_empty_string, optional_bool, optional_port,
  require_vnc_display_number, require_only_keys, require_subset_keys, require_empty_table,
  require_absolute_path, optional_absolute_path, optional_command_or_absolute_path,
}
use relay_inner_display_scri.Config.Moonlight.{
  require_moonlight_host, optional_moonlight_resolution,
}

abbrev pub default_console_artifact_dir : String
default_console_artifact_dir = "/run/relayinner-display/console"

-- `if name not in SUPPORTED: raise ConfigError(…)`; the supported values are in the template
abbrev pub require_one_of : String → List String → String → Checked (Unit {0})
require_one_of value supported template =
    refuse_if (not (one_of value supported)) template (value ∷ [])

abbrev pub supported_vnc_bind_hosts : List String
supported_vnc_bind_hosts = "127.0.0.1" ∷ "localhost" ∷ []

abbrev pub supported_vnc_viewers : List String
supported_vnc_viewers = "remote-viewer" ∷ []

abbrev pub supported_looking_glass_renderers : List String
supported_looking_glass_renderers = "auto" ∷ "egl" ∷ "opengl" ∷ []

-- the four blocks of the `[console]` table
pub record Blocks : Type 0 where
  pub spice : Table
  pub vnc : Table
  pub looking_glass : Table
  pub moonlight : Table

module _ (lib : Platform) where
  abbrev legacy_or : String → Option String → String
  legacy_or artifact_dir none = lib.joined artifact_dir "spice-current.vv"
  legacy_or artifact_dir (some path) = path

  abbrev chosen_vv_path : Table → String → Option String → Checked String
  chosen_vv_path block artifact_dir legacy =
      if has_entries block
      then require_absolute_path lib block "vv_path"
      else accepted (legacy_or artifact_dir legacy)

  unfoldable pub parse_spice : Blocks → String → Option String → Checked ConsoleConfig
  parse_spice b artifact_dir legacy = do
    require_empty_table b.looking_glass "spice" "console.looking_glass"
    require_empty_table b.vnc "spice" "console.vnc"
    require_empty_table b.moonlight "spice" "console.moonlight"
    require_only_keys b.spice ("vv_path" ∷ []) "console.spice"
    vv_path ← chosen_vv_path b.spice artifact_dir legacy
    accepted (record {
      artifact_dir = artifact_dir;
      spice = some (record { vv_path = vv_path });
      vnc = none;
      looking_glass = none;
      moonlight = none;
    })

  unfoldable pub parse_vnc : Blocks → String → Checked ConsoleConfig
  parse_vnc b artifact_dir = do
    require_empty_table b.spice "vnc" "console.spice"
    require_empty_table b.looking_glass "vnc" "console.looking_glass"
    require_empty_table b.moonlight "vnc" "console.moonlight"
    require_only_keys b.vnc ("bind_host" ∷ "display_number" ∷ "viewer" ∷ []) "console.vnc"
    bind_host ← optional_non_empty_string b.vnc "bind_host" "127.0.0.1"
    require_one_of bind_host supported_vnc_bind_hosts
        "Unsupported console.vnc.bind_host={!r}; supported values: 127.0.0.1, localhost"
    display_number ← require_vnc_display_number b.vnc "display_number"
    viewer ← optional_non_empty_string b.vnc "viewer" "remote-viewer"
    require_one_of viewer supported_vnc_viewers
        "Unsupported console.vnc.viewer={!r}; supported values: remote-viewer"
    accepted (record {
      artifact_dir = artifact_dir;
      spice = none;
      vnc =
          some (record { display_number = display_number; bind_host = bind_host; viewer = viewer });
      looking_glass = none;
      moonlight = none;
    })

  unfoldable pub parse_looking_glass : Blocks → String → Checked ConsoleConfig
  parse_looking_glass b artifact_dir = do
    require_empty_table b.spice "looking-glass" "console.spice"
    require_empty_table b.vnc "looking-glass" "console.vnc"
    require_empty_table b.moonlight "looking-glass" "console.moonlight"
    require_only_keys b.looking_glass
        ("binary" ∷ "shm_file" ∷ "renderer" ∷ "fullscreen" ∷ "disable_host_screensaver"
          ∷ "spice_enabled" ∷ [])
        "console.looking_glass"
    renderer ← optional_non_empty_string b.looking_glass "renderer" "auto"
    require_one_of renderer supported_looking_glass_renderers
        "Unsupported console.looking_glass.renderer={!r}; supported values: auto, egl, opengl"
    binary ← optional_non_empty_string b.looking_glass "binary" "looking-glass-client"
    shm_file ← require_absolute_path lib b.looking_glass "shm_file"
    fullscreen ← optional_bool b.looking_glass "fullscreen" true
    disable_host_screensaver ← optional_bool b.looking_glass "disable_host_screensaver" true
    spice_enabled ← optional_bool b.looking_glass "spice_enabled" true
    accepted (record {
      artifact_dir = artifact_dir;
      spice = none;
      vnc = none;
      looking_glass = some (record {
        shm_file = shm_file;
        binary = binary;
        renderer = renderer;
        fullscreen = fullscreen;
        disable_host_screensaver = disable_host_screensaver;
        spice_enabled = spice_enabled;
      });
      moonlight = none;
    })

  -- the arguments in the order of the call, then `__post_init__`
  unfoldable pub parse_moonlight_table : Table → Checked ConsoleMoonlightConfig
  parse_moonlight_table t = do
    binary ← optional_command_or_absolute_path lib t "binary" "moonlight"
    host ← require_moonlight_host lib.python t "host"
    base_port ← optional_port t "base_port" default_moonlight_base_port
    app ← optional_non_empty_string t "app" default_moonlight_app
    state_dir ← optional_absolute_path lib t "state_dir" "/var/lib/relayinner-display/moonlight"
    resolution ← optional_moonlight_resolution lib t "resolution"
    quit ← optional_bool t "quit_app_after_session" false
    let m : ConsoleMoonlightConfig = record {
      host = host;
      binary = binary;
      base_port = base_port;
      app = app;
      state_dir = state_dir;
      resolution = resolution;
      quit_app_after_session = quit;
    }
    refuse_if (moonlight_refused lib.python m)
        "console.moonlight.quit_app_after_session=true is not valid when console.moonlight.app='Desktop'"
        []
    accepted m

  unfoldable pub parse_moonlight : Blocks → String → String → Checked ConsoleConfig
  unfolding parse_moonlight_table
  parse_moonlight b backend artifact_dir = do
    require_empty_table b.spice backend "console.spice"
    require_empty_table b.vnc backend "console.vnc"
    require_empty_table b.looking_glass backend "console.looking_glass"
    require_only_keys b.moonlight
        ("binary" ∷ "host" ∷ "base_port" ∷ "app" ∷ "state_dir" ∷ "resolution"
          ∷ "quit_app_after_session" ∷ [])
        "console.moonlight"
    moonlight ← parse_moonlight_table b.moonlight
    accepted (record {
      artifact_dir = artifact_dir;
      spice = none;
      vnc = none;
      looking_glass = none;
      moonlight = some moonlight;
    })

  -- the branch of the backend
  unfoldable pub parse_backend : Blocks → String → String → Option String → Checked ConsoleConfig
  parse_backend b backend artifact_dir legacy =
      if backend == "spice"
      then parse_spice b artifact_dir legacy
      else if backend == "vnc"
      then parse_vnc b artifact_dir
      else if backend == "looking-glass"
      then parse_looking_glass b artifact_dir
      else parse_moonlight b backend artifact_dir

  unfoldable pub parse_console_config : String → Table → Option String → Checked ConsoleConfig
  unfolding parse_backend
  parse_console_config backend t legacy = do
    artifact_dir ← optional_absolute_path lib t "artifact_dir" default_console_artifact_dir
    require_subset_keys t "console"
        ("artifact_dir" ∷ "spice" ∷ "vnc" ∷ "looking_glass" ∷ "moonlight" ∷ [])
    spice ← optional_table t "spice"
    vnc ← optional_table t "vnc"
    looking_glass ← optional_table t "looking_glass"
    moonlight ← optional_table t "moonlight"
    let b : Blocks = record {
      spice = spice;
      vnc = vnc;
      looking_glass = looking_glass;
      moonlight = moonlight;
    }
    parse_backend b backend artifact_dir legacy

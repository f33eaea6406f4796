-- ===== src/Config.antt =====
-- The configuration of relayinner_display/config.py: its tables as records, and the properties
-- that render them.
pub mod Checked
pub mod Toml
pub mod Platform
pub mod Fields
pub mod Moonlight
pub mod Console
pub mod Parse
pub mod Load
pub mod Sound
pub mod Escapes
use relay_inner_display_scri.Base.{
  ℕ, ◌+◌, String, Bool, false, Option, none, some, List, [], ◌∷◌, ◌++◌, eqb, if◌then◌else◌, concat,
  show_ℕ, ◌==◌, ◌&&◌,
}

pub record TargetConfig : Type 0 where
  pub vmid : ℕ
  pub node_name : String
  pub guest_os : String
  pub console_backend : String

-- Paths are absolute texts.
pub record RuntimeConfig : Type 0 where
  pub run_dir : String
  pub control_socket : String
  pub spice_vv_path : String
  pub log_namespace : String

pub record DisplayConfig : Type 0 where
  pub output_name : String
  pub power_helper : String
  pub drm_compatibility : String

pub record KioskConfig : Type 0 where
  pub compositor : String
  pub resolved_compositor : String

pub record InputConfig : Type 0 where
  pub power_button_event : String
  pub forward_power_button : Bool
  pub debounce_ms : ℕ

pub record PolicyConfig : Type 0 where
  pub poll_interval_ms : ℕ
  pub reconnect_initial_ms : ℕ
  pub reconnect_max_ms : ℕ
  pub command_timeout_s : ℕ
  pub dpms_policy : String
  pub dpms_off_delay_ms : ℕ
  pub power_state_stabilize_ms : ℕ
  pub power_button_action_when_running : String
  pub power_button_action_when_stopped : String
  pub shutdown_timeout_s : ℕ

pub record ConsoleSpiceConfig : Type 0 where
  pub vv_path : String

pub record ConsoleVncConfig : Type 0 where
  pub display_number : ℕ
  pub bind_host : String
  pub viewer : String

pub record ConsoleLookingGlassConfig : Type 0 where
  pub shm_file : String
  pub binary : String
  pub renderer : String
  pub fullscreen : Bool
  pub disable_host_screensaver : Bool
  pub spice_enabled : Bool

pub record ConsoleMoonlightConfig : Type 0 where
  pub host : String
  pub binary : String
  pub base_port : ℕ
  pub app : String
  pub state_dir : String
  pub resolution : Option String
  pub quit_app_after_session : Bool

pub record ConsoleConfig : Type 0 where
  pub artifact_dir : String
  pub spice : Option ConsoleSpiceConfig
  pub vnc : Option ConsoleVncConfig
  pub looking_glass : Option ConsoleLookingGlassConfig
  pub moonlight : Option ConsoleMoonlightConfig

pub record AppConfig : Type 0 where
  pub target : TargetConfig
  pub runtime : RuntimeConfig
  pub policy : PolicyConfig
  pub display : DisplayConfig
  pub kiosk : KioskConfig
  pub input : InputConfig
  pub console : ConsoleConfig

-- What the program takes from Python's library: Unicode case folding, and the version of an IP
-- literal (`ipaddress.ip_address`), `none` where the text is no literal.
pub record Python : Type 0 where
  pub casefold : String → String
  pub ip_version : String → Option ℕ

unfoldable pub daemon_state_path : RuntimeConfig → String
daemon_state_path r = concat (r.run_dir ∷ "/daemon.state.json" ∷ [])

unfoldable pub vnc_port : ConsoleVncConfig → ℕ
vnc_port v = 5900 + v.display_number

unfoldable pub vnc_endpoint : ConsoleVncConfig → String
unfolding vnc_port
vnc_endpoint v = concat (v.bind_host ∷ ":" ∷ show_ℕ (vnc_port v) ∷ [])

unfoldable pub vnc_uri : ConsoleVncConfig → String
unfolding vnc_endpoint
vnc_uri v = concat ("vnc://" ∷ vnc_endpoint v ∷ [])

-- `if flag: argv.append(arg)`
abbrev append_if : Bool → String → List String → List String
append_if flag arg argv = if flag then argv ++ arg ∷ [] else argv

unfoldable pub looking_glass_argv : ConsoleLookingGlassConfig → List String
looking_glass_argv c =
    let argv : List String = append_if c.fullscreen "-F" (c.binary ∷ []) in
    let argv' = append_if c.disable_host_screensaver "-S" argv in
    let argv'' = argv' ++ "-g" ∷ c.renderer ∷ "-f" ∷ c.shm_file ∷ [] in
    if c.spice_enabled then argv'' else argv'' ++ "-s" ∷ []

abbrev pub default_moonlight_base_port : ℕ
default_moonlight_base_port = 47989

abbrev pub default_moonlight_app : String
default_moonlight_app = "Desktop"

abbrev pub is_version_6 : Option ℕ → Bool
is_version_6 none = false
is_version_6 (some v) = eqb v 6

unfoldable pub render_moonlight_host_authority : Python → String → ℕ → String
render_moonlight_host_authority py host base_port =
    if eqb base_port default_moonlight_base_port
    then host
    else if is_version_6 (py.ip_version host)
    then concat ("[" ∷ host ∷ "]:" ∷ show_ℕ base_port ∷ [])
    else concat (host ∷ ":" ∷ show_ℕ base_port ∷ [])

unfoldable pub host_authority : Python → ConsoleMoonlightConfig → String
unfolding render_moonlight_host_authority
host_authority py m = render_moonlight_host_authority py m.host m.base_port

abbrev with_resolution : Option String → List String → List String
with_resolution none argv = argv
with_resolution (some r) argv = argv ++ "--resolution" ∷ r ∷ []

unfoldable pub moonlight_argv : Python → ConsoleMoonlightConfig → List String
unfolding host_authority
moonlight_argv py m =
    let argv : List String =
      with_resolution m.resolution (m.binary ∷ "stream" ∷ host_authority py m ∷ m.app ∷ []) in
    append_if m.quit_app_after_session "--quit-after" (argv ++ "--display-mode" ∷ "fullscreen" ∷ [])

-- `__post_init__`: the combination that the constructor of the Moonlight table refuses.
unfoldable pub moonlight_refused : Python → ConsoleMoonlightConfig → Bool
moonlight_refused py m =
    m.quit_app_after_session && py.casefold m.app == py.casefold default_moonlight_app

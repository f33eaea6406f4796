-- ===== src/Config/Sound.antt =====
-- What a configuration that the parser accepts satisfies.
pub mod Tables
pub mod Consoles
pub mod Whole
use relay_inner_display_scri.Base.{
  ℕ, ◌≤◌, ◌<◌, ◌≡◌, String, Bool, true, false, Option, none, some, is_some, if◌then◌else◌, ◌==◌,
  one_of, List, [], ◌∷◌, concat, show_ℕ, ◌||◌,
}
use relay_inner_display_scri.Config.Moonlight.{is_hostname}
use relay_inner_display_scri.Config.{
  AppConfig, TargetConfig, RuntimeConfig, ConsoleSpiceConfig, PolicyConfig, KioskConfig,
  ConsoleConfig, ConsoleVncConfig, ConsoleMoonlightConfig, vnc_port, moonlight_refused,
}
use relay_inner_display_scri.Config.Toml.{Value, table, Table, get, has_key}
use relay_inner_display_scri.Config.Platform.{Platform}
use relay_inner_display_scri.Config.Console.{supported_vnc_bind_hosts, supported_vnc_viewers}
use relay_inner_display_scri.Config.Parse.{supported_console_backends}

pub record PolicySound (p : PolicyConfig) : Type 0 where
  pub poll_positive : 0 < p.poll_interval_ms
  pub initial_positive : 0 < p.reconnect_initial_ms
  pub delays_ordered : p.reconnect_initial_ms ≤ p.reconnect_max_ms
  pub timeout_positive : 0 < p.command_timeout_s
  pub dpms_known : p.dpms_policy ≡ "vm-power"
  pub running_known : p.power_button_action_when_running ≡ "shutdown"
  pub stopped_known : p.power_button_action_when_stopped ≡ "start"

pub record TargetSound (t : TargetConfig) : Type 0 where
  pub vmid_positive : 0 < t.vmid
  pub backend_known : one_of t.console_backend supported_console_backends ≡ true

-- the port and the hosts of a VNC table
pub record VncSound (v : ConsoleVncConfig) : Type 0 where
  pub port_bounded : vnc_port v ≤ 65535
  pub host_local : one_of v.bind_host supported_vnc_bind_hosts ≡ true
  pub viewer_known : one_of v.viewer supported_vnc_viewers ≡ true

abbrev pub AllVnc : Option ConsoleVncConfig → Type 0
AllVnc none = Unit
AllVnc (some v) = VncSound v

abbrev pub IsResolution : Option String → Type 0
IsResolution none = Unit
IsResolution (some r) =
    (width : ℕ) × (height : ℕ) × (0 < width)
    × (0 < height)
    × (r ≡ concat (show_ℕ width ∷ "x" ∷ show_ℕ height ∷ []))

-- the file of the SPICE table, as the daemon picks it
abbrev pub spice_file : RuntimeConfig → Option ConsoleSpiceConfig → String
spice_file r none = r.spice_vv_path
spice_file r (some s) = s.vv_path

-- whether a `[runtime]` table has the deprecated key
abbrev pub gives_legacy_path : Option Value → Bool
gives_legacy_path (some (table t)) = has_key t "spice_vv_path"
gives_legacy_path _ = false

module _ (lib : Platform) where
  pub record MoonlightSound (m : ConsoleMoonlightConfig) : Type 0 where
    pub port_positive : 0 < m.base_port
    pub port_bounded : m.base_port ≤ 65535
    pub resolution_normal : IsResolution m.resolution
    pub host_valid : (is_some (lib.python.ip_version m.host) || is_hostname m.host) ≡ true
    pub not_refused : moonlight_refused lib.python m ≡ false

  abbrev pub AllMoonlight : Option ConsoleMoonlightConfig → Type 0
  AllMoonlight none = Unit
  AllMoonlight (some m) = MoonlightSound m

  -- exactly the table of the backend is there
  pub record ConsoleSound (backend : String) (c : ConsoleConfig) : Type 0 where
    pub spice_table : is_some c.spice ≡ (backend == "spice")
    pub vnc_table : is_some c.vnc ≡ (backend == "vnc")
    pub looking_glass_table : is_some c.looking_glass ≡ (backend == "looking-glass")
    pub moonlight_table : is_some c.moonlight ≡ (backend == "moonlight")
    pub vnc_sound : AllVnc c.vnc
    pub moonlight_sound : AllMoonlight c.moonlight

  -- the paths that the parser compares with the run directory
  pub record RuntimeSound (artifact_dir : String) (r : RuntimeConfig) : Type 0 where
    pub socket_below : lib.is_below r.run_dir r.control_socket ≡ true
    pub artifacts_below : lib.is_below r.run_dir artifact_dir ≡ true
    pub vv_path_below : lib.is_below r.run_dir r.spice_vv_path ≡ true

  -- The file that the SPICE launch writes stands below the run directory, unless the deprecated
  -- `runtime.spice_vv_path` was given.
  abbrev pub HasSpiceFile : Bool → RuntimeConfig → ConsoleConfig → Type 0
  HasSpiceFile given r console = given || lib.is_below r.run_dir (spice_file r console.spice) ≡ true

  pub record IsSound (raw : Table) (c : AppConfig) : Type 0 where
    pub target : TargetSound c.target
    pub runtime : RuntimeSound c.console.artifact_dir c.runtime
    pub spice_file_below : HasSpiceFile (gives_legacy_path (get raw "runtime")) c.runtime c.console
    pub policy : PolicySound c.policy
    pub console : ConsoleSound c.target.console_backend c.console
    pub compositor :
        c.kiosk.resolved_compositor
        ≡ (if c.target.console_backend == "moonlight" then "sway" else "cage")

-- ===== src/Examples/SpiceFiles.antt =====
-- The file of a SPICE launch, for a configuration with the deprecated key and for one without.
use relay_inner_display_scri.Base.{
  ◌≡◌, refl, String, Bool, true, false, Option, none, some, List, [], ◌∷◌, ◌++◌, pos,
}
use relay_inner_display_scri.Config.Checked.{Checked, accepted}
use relay_inner_display_scri.Config.{AppConfig}
use relay_inner_display_scri.Config.Toml.{Table, no_entries, entry, table, integer, text_value}
use relay_inner_display_scri.Config.Parse.{parse_config}
use relay_inner_display_scri.Daemon.Launch.{spice_vv_path}
use relay_inner_display_scri.Examples.ConfigRuns.{platform, strings, policy_table}

-- a file with the path in the table of SPICE, and with further entries in `[runtime]`
abbrev spice_tables : String → List (String × String) → Table
spice_tables path further =
    entry "target"
      (table (
        entry "vmid" (integer (pos 100)) (
          strings
            (("node_name", "auto") ∷ ("guest_os", "linux") ∷ ("console_backend", "spice") ∷ [])
            no_entries)))
      (entry "runtime"
        (table (
          strings
            (("run_dir", "/run/relay")
              ∷ ("control_socket", "/run/relay/s.sock")
              ∷ ("log_namespace", "relay")
              ∷ further)
            no_entries))
        (entry "policy" (table policy_table) (
          entry "console"
            (table (
              entry "artifact_dir" (text_value "/run/relay/console")
                (entry "spice" (table (strings (("vv_path", path) ∷ []) no_entries)) no_entries)))
            no_entries)))

-- the file that the daemon writes with the accepted configuration, and whether it is below the run
-- directory
abbrev written_file : Checked AppConfig → Option (String × Bool)
written_file (accepted c) =
    some (spice_vv_path c, platform.is_below c.runtime.run_dir (spice_vv_path c))
written_file _ = none

-- with both keys a path outside the run directory passes, and is refused with the key of the table
-- alone
spice_files :
    (written_file (
        parse_config platform
          (spice_tables "/etc/evil.vv" (("spice_vv_path", "/run/relay/spice.vv") ∷ [])))
      ≡ some ("/etc/evil.vv", false))
    × (written_file (parse_config platform (spice_tables "/etc/evil.vv" [])) ≡ none)
    × (written_file (parse_config platform (spice_tables "/run/relay/a.vv" []))
        ≡ some ("/run/relay/a.vv", true))
unfolding parse_config relay_inner_display_scri.Config.Fields.require_table
    relay_inner_display_scri.Config.Fields.optional_table
    relay_inner_display_scri.Config.Fields.require_positive_int
    relay_inner_display_scri.Config.Fields.require_non_empty_string
    relay_inner_display_scri.Config.Fields.non_empty_string_of
    relay_inner_display_scri.Config.Fields.optional_absolute_path_or_none
    relay_inner_display_scri.Config.Fields.optional_absolute_path
    relay_inner_display_scri.Config.Fields.optional_non_empty_string
    relay_inner_display_scri.Config.Fields.require_subset_keys
    relay_inner_display_scri.Config.Fields.require_empty_table
    relay_inner_display_scri.Config.Fields.require_only_keys
    relay_inner_display_scri.Config.Fields.optional_command_or_absolute_path
    relay_inner_display_scri.Config.Fields.optional_bool
    relay_inner_display_scri.Config.Fields.optional_non_negative_int
    relay_inner_display_scri.Config.Fields.optional_string
    relay_inner_display_scri.Config.Fields.positive_of
    relay_inner_display_scri.Config.Fields.require_absolute_path
    relay_inner_display_scri.Config.Fields.require_child_path
    relay_inner_display_scri.Config.Console.parse_console_config
    relay_inner_display_scri.Config.Console.parse_backend
    relay_inner_display_scri.Config.Parse.parse_target
    relay_inner_display_scri.Config.Parse.parse_runtime
    relay_inner_display_scri.Config.Parse.parse_policy
    relay_inner_display_scri.Config.Parse.parse_input
    relay_inner_display_scri.Config.Parse.parse_display_config
    relay_inner_display_scri.Config.Parse.parse_kiosk_config
    relay_inner_display_scri.Config.Parse.resolve_kiosk_compositor
    relay_inner_display_scri.Config.Parse.backend_compositor
    relay_inner_display_scri.Config.Checked.◌>>=◌ relay_inner_display_scri.Base.strip
    relay_inner_display_scri.Config.Console.parse_spice spice_vv_path
spice_files = (refl, refl, refl)

-- ===== src/Config/Sound/Whole.antt =====
-- The whole of an accepted configuration.
use relay_inner_display_scri.Base.{◌≡◌, sym, String, Option, some, is_some}
use relay_inner_display_scri.Config.{AppConfig, RuntimeConfig, ConsoleConfig}
use relay_inner_display_scri.Config.Checked.{accepted}
use relay_inner_display_scri.Config.Checked.Yields.{
  Yields, Yields-accepted, Yields-bind, Yields-then,
}
use relay_inner_display_scri.Config.Toml.{Value, table, Table, has_key}
use relay_inner_display_scri.Config.Platform.{Platform}
use relay_inner_display_scri.Config.Parse.{parse_config}
use relay_inner_display_scri.Config.Sound.{IsSound, HasSpiceFile, gives_legacy_path}
use relay_inner_display_scri.Config.Sound.Tables.{
  Yields-require_table, Yields-path_or_none, Yields-parse_target, Yields-parse_runtime,
  Yields-parse_kiosk, Yields-parse_policy,
}
use relay_inner_display_scri.Config.Sound.Consoles.{Yields-parse_console}

same_given :
    (lib : Platform) (v : Option Value) (t : Table) (legacy : Option String) (r : RuntimeConfig)
    (console : ConsoleConfig)
    → v ≡ some (table t)
    → is_some legacy ≡ has_key t "spice_vv_path"
    → HasSpiceFile lib (is_some legacy) r console
    → HasSpiceFile lib (gives_legacy_path v) r console
same_given lib v t legacy r console found given below = rw (found, sym given) below

Yields-parse_config :
    (lib : Platform) (raw : Table) → Yields (IsSound lib raw) (parse_config lib raw)
unfolding parse_config
Yields-parse_config lib raw = Yields-then _ _ λ target_table.
    Yields-bind _ _ (Yields-require_table raw "runtime") λ runtime_table found.
      Yields-then _ _ λ policy_table. Yields-then _ _ λ display_table.
        Yields-then _ _ λ kiosk_table. Yields-then _ _ λ input_table.
          Yields-then _ _ λ console_table.
            Yields-bind _ _ (Yields-parse_target target_table) λ target target_sound.
              let backend = target.console_backend in
              Yields-bind _ _ (Yields-path_or_none lib runtime_table "spice_vv_path")
                λ legacy given. Yields-then _ _ λ _.
                  Yields-bind _ _
                    (Yields-parse_console lib backend console_table legacy
                      target_sound.backend_known)
                    λ console console_sound.
                      Yields-bind _ _ (Yields-parse_runtime lib runtime_table legacy console)
                        λ runtime runtime_sound. Yields-then _ _ λ display.
                          Yields-bind _ _ (Yields-parse_kiosk backend kiosk_table)
                            λ kiosk compositor. Yields-then _ _ λ input.
                              Yields-bind _ _ (Yields-parse_policy policy_table)
                                λ policy policy_sound. Yields-accepted _ (record {
                                  target = target_sound;
                                  runtime = runtime_sound.0;
                                  spice_file_below =
                                      same_given lib _ runtime_table legacy runtime console found
                                        given runtime_sound.1;
                                  policy = policy_sound;
                                  console = console_sound;
                                  compositor = compositor;
                                })

-- Whatever the tables of the file are, a configuration that is accepted has positive intervals
-- and an initial reconnect delay of at most the maximal one, a supported backend with exactly
-- its own console table, a VNC port of at most 65535 on a loopback host, a Moonlight port
-- between 1 and 65535 with a valid host and a resolution in normal form, the compositor of the
-- backend, and its socket, its artifact directory and its `runtime.spice_vv_path` below the run
-- directory. The SPICE file that the daemon picks from the console table is below it too, unless
-- the file gives the deprecated key `runtime.spice_vv_path`.
pub parse_config-IsSound :
    (lib : Platform) (raw : Table) (c : AppConfig)
    → parse_config lib raw ≡ accepted c
    → IsSound lib raw c
parse_config-IsSound lib raw c e = (Yields-parse_config lib raw).at c e

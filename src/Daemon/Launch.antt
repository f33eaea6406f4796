-- ===== src/Daemon/Launch.antt =====
-- `_prepare_console_launch`: the message that starts the viewer of the configured backend.
use relay_inner_display_scri.Base.{
  ℕ, zero, suc, String, Bool, not, Option, none, some, List, [], ◌∷◌, eqb, map, if◌then◌else◌,
  is_empty, strip, any_of, keep_if, ◌==◌,
}
use relay_inner_display_scri.Exec.{
  text, formatted_with, moonlight_app_unavailable, Exn, runtime_validation_error, assertion_error,
  os_error, timeout_expired, Exec, pure, raise, gets, modify, ◌>>=◌, ◌>>◌, try_then,
}
use relay_inner_display_scri.Config.{
  Python, AppConfig, ConsoleVncConfig, ConsoleLookingGlassConfig, ConsoleMoonlightConfig, vnc_port,
  vnc_endpoint, vnc_uri, looking_glass_argv, moonlight_argv, host_authority, default_moonlight_app,
}
use relay_inner_display_scri.Message.{Message, connect_console}
use relay_inner_display_scri.Services.{Call, Services, Completed, UserEntry}
use relay_inner_display_scri.Daemon.State.{Daemon, call}
use relay_inner_display_scri.Daemon.Pairing.{no_moonlight_config, with_moonlight}
use relay_inner_display_scri.Daemon.Preflight.{
  session_user, invalid, is_absolute, validate_looking_glass_preflight,
}

-- the index of the first field that is `name`
unfoldable pub index_of : String → List String → Option ℕ
index_of name [] = none
index_of name (x ∷ xs) =
    let rest = index_of name xs in
    if x == name then some 0 else elim rest [ none ↦ none | some i ↦ some (suc i) ]

abbrev field_at : List String → ℕ → String
field_at [] i = ""
field_at (x ∷ xs) zero = x
field_at (x ∷ xs) (suc i) = field_at xs i

-- A row that is too short has no field there, and a blank field is no name either.
names_at : ℕ → List (List String) → List String
names_at i rows =
    keep_if (λ (s : String). not (is_empty s))
      (map (λ (r : List String). strip (field_at r i)) rows)

named_column : Option ℕ → List String → List (List String) → List String
unfolding names_at
named_column none first rows = names_at 0 (first ∷ rows)
named_column (some i) first rows = names_at i rows

app_names : Python → List (List String) → List String
unfolding named_column index_of
app_names py [] = []
app_names py (first ∷ rows) = named_column (index_of "name" (map py.casefold first)) first rows

-- `parse_moonlight_app_list_csv`, on the rows that `csv.reader` yields
unfoldable pub parse_moonlight_app_list_csv : Python → List (List String) → List String
unfolding app_names
parse_moonlight_app_list_csv py rows = app_names py (
    keep_if (λ (r : List String). any_of (λ (f : String). not (is_empty f)) r)
      (map (λ (r : List String). map strip r) rows))

unfoldable pub moonlight_app_is_available : Python → ConsoleMoonlightConfig → List String → Bool
moonlight_app_is_available py m apps =
    let configured = py.casefold (strip m.app) in
    any_of (λ (app : String). py.casefold (strip app) == configured) apps

unfoldable pub moonlight_app_uses_desktop_stream : Python → ConsoleMoonlightConfig → Bool
moonlight_app_uses_desktop_stream py m =
    py.casefold (strip m.app) == py.casefold default_moonlight_app

unfoldable pub spice_vv_path : AppConfig → String
spice_vv_path c = elim c.console.spice [ none ↦ c.runtime.spice_vv_path | some s ↦ s.vv_path ]

module _ (w : Services) (c : AppConfig) where
  unfoldable pub resolved_binary : String → Exec Daemon String
  unfolding is_absolute
  resolved_binary binary = do
    found ← gets (λ (d : Daemon). w.files.which d.trace binary)
    if is_absolute binary then pure binary else pure (elim found [ none ↦ binary | some p ↦ p ])

  unfoldable pub known_or_invalid : Option UserEntry → Exec Daemon Unit
  known_or_invalid none = invalid "Session user does not exist: {}" (session_user ∷ [])
  known_or_invalid (some _) = pure tt

  -- `_session_user_command_kwargs` and `_moonlight_helper_env` want the session user, as root
  unfoldable pub session_user_known : Exec Daemon Unit
  unfolding known_or_invalid
  session_user_known = do
    entry ← gets (λ (d : Daemon). w.files.getpwnam d.trace session_user)
    if not w.runs_as_root then pure tt else known_or_invalid entry

  unfoldable pub moonlight_command_failed : List String → Exn → Exec Daemon Completed
  moonlight_command_failed command (timeout_expired _) =
      invalid "Moonlight command timed out: {}" command
  moonlight_command_failed command (os_error reason) = raise (
      runtime_validation_error
        (formatted_with "Failed to run Moonlight command: {}" command reason))
  moonlight_command_failed command e = raise e

  unfoldable pub run_moonlight_list : ConsoleMoonlightConfig → Exec Daemon Completed
  unfolding session_user_known moonlight_command_failed
  run_moonlight_list m = do
    binary ← resolved_binary m.binary
    session_user_known
    let command : List String = binary ∷ "list" ∷ host_authority w.python m ∷ "--csv" ∷ []
    try_then (call (Call.run_moonlight command) (λ t. w.run_moonlight t command))
        (moonlight_command_failed command) pure

  abbrev detail : Completed → String
  detail r = let err = strip r.stderr in if is_empty err then strip r.stdout else err

  unfoldable pub moonlight_list_apps : ConsoleMoonlightConfig → Exec Daemon (List String)
  moonlight_list_apps m = do
    completed ← run_moonlight_list m
    if not (eqb completed.returncode 0)
        then invalid "Moonlight app-list retrieval failed for {}: {}"
            (host_authority w.python m ∷ detail completed ∷ [])
        else pure (parse_moonlight_app_list_csv w.python (w.csv_rows completed.stdout))

  unfoldable pub launch_spice : Exec Daemon Message
  launch_spice = do
    node ← gets (λ (d : Daemon). d.state.node_name)
    spice_config ←
        call (Call.request_spice_config node c.target.vmid)
          (λ t. w.request_spice_config t node c.target.vmid)
    call (Call.write_vv_file (spice_vv_path c))
        (λ t. w.write_vv_file t (spice_vv_path c) spice_config)
    pure (
        connect_console "spice" "remote-viewer"
          ("remote-viewer" ∷ "--full-screen" ∷ spice_vv_path c ∷ []) none)

  unfoldable pub launch_vnc : ConsoleVncConfig → Exec Daemon Message
  launch_vnc v = do
    call (Call.validate_vnc_configuration c.target.vmid v.bind_host v.display_number)
        (λ t. w.validate_vnc_configuration t c.target.vmid v.bind_host v.display_number)
    call (Call.probe_vnc_endpoint v.bind_host (vnc_port v))
        (λ t. w.probe_vnc_endpoint t v.bind_host (vnc_port v))
    modify (λ (d : Daemon). record d {
      state = record d.state { vnc_endpoint = some (vnc_endpoint v) };
    })
    pure (connect_console "vnc" v.viewer (v.viewer ∷ "--full-screen" ∷ vnc_uri v ∷ []) none)

  unfoldable pub launch_looking_glass : ConsoleLookingGlassConfig → Exec Daemon Message
  launch_looking_glass l = do
    validate_looking_glass_preflight w (some l)
    modify (λ (d : Daemon). record d {
      state = record d.state { looking_glass_shm_file = some l.shm_file };
    })
    pure (connect_console "looking-glass" l.binary (looking_glass_argv l) none)

  unfoldable pub require_app : ConsoleMoonlightConfig → Exec Daemon Unit
  require_app m = do
    apps ← moonlight_list_apps m
    if moonlight_app_is_available w.python m apps
        then pure tt
        else raise
            (runtime_validation_error (moonlight_app_unavailable (host_authority w.python m) m.app))

  unfoldable pub launch_moonlight : ConsoleMoonlightConfig → Exec Daemon Message
  unfolding require_app
  launch_moonlight m = do
    if moonlight_app_uses_desktop_stream w.python m then pure tt else require_app m
    pure (connect_console "moonlight" m.binary (moonlight_argv w.python m) (some m.state_dir))

  unfoldable pub missing_config : String → Exec Daemon Message
  missing_config what = raise (assertion_error (text what))

  unfoldable pub launch_vnc_of : Option ConsoleVncConfig → Exec Daemon Message
  launch_vnc_of none = missing_config "VNC backend selected without console.vnc config"
  launch_vnc_of (some v) = launch_vnc v

  unfoldable pub launch_looking_glass_of : Option ConsoleLookingGlassConfig → Exec Daemon Message
  launch_looking_glass_of none =
      missing_config "Looking Glass backend selected without console.looking_glass config"
  launch_looking_glass_of (some l) = launch_looking_glass l

  unfoldable pub prepare_console_launch : Exec Daemon Message
  unfolding launch_vnc_of launch_looking_glass_of missing_config
  prepare_console_launch =
      if c.target.console_backend == "spice"
      then launch_spice
      else if c.target.console_backend == "vnc"
      then launch_vnc_of c.console.vnc
      else if c.target.console_backend == "looking-glass"
      then launch_looking_glass_of c.console.looking_glass
      else if c.target.console_backend == "moonlight"
      then with_moonlight c.console.moonlight launch_moonlight (raise no_moonlight_config)
      else missing_config "Unhandled console backend"

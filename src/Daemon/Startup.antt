-- ===== src/Daemon/Startup.antt =====
-- `start`: the checks by which the daemon begins in degraded mode or waits for its session.
use Prim.Native.Char.{Char, code}
use relay_inner_display_scri.Base.{
  ℕ, ◌+◌, ◌-◌, ◌*◌, String, Bool, true, not, ◌&&◌, ◌||◌, Option, none, some, List, [], ◌∷◌, ltb,
  leb, eqb, if◌then◌else◌, is_empty, strip, concat, one_of, ◌==◌,
}
use relay_inner_display_scri.Exec.{
  Reason, text, formatted_with, Exn, runtime_validation_error, power_button_error, assertion_error,
  os_error, timeout_expired, Exec, pure, raise, gets, modify, ◌>>=◌, ◌>>◌, try_then,
}
use relay_inner_display_scri.Config.{AppConfig, ConsoleLookingGlassConfig, ConsoleMoonlightConfig}
use relay_inner_display_scri.Models.{waiting_for_session}
use relay_inner_display_scri.Services.{Call, Services, Completed}
use relay_inner_display_scri.Daemon.State.{Daemon, persist_state, call}
use relay_inner_display_scri.Daemon.PairState.{set_startup_error}
use relay_inner_display_scri.Daemon.Pairing.{with_moonlight, no_moonlight_config}
use relay_inner_display_scri.Daemon.Preflight.{
  invalid, ensure_binary_available, validate_looking_glass_preflight,
}
use relay_inner_display_scri.Daemon.Launch.{resolved_binary, session_user_known}
use relay_inner_display_scri.Daemon.Session.{then_persist}

-- `\d`, for the ASCII digits
abbrev digit_of : Char → Option ℕ
digit_of ch = if leb b'0' (code ch) && leb (code ch) b'9' then some (code ch - b'0') else none

abbrev is_dot : Char → Bool
is_dot ch = eqb (code ch) b'.'

-- `(\d+)` at the start: its value and what follows. A shorter run never helps the match.
digits_from : ℕ → String → ℕ × String
digits_from acc String.[] = (acc, "")
digits_from acc (String.◌∷◌ ch s) = elim (digit_of ch) [
  | none ↦ (acc, String.◌∷◌ ch s)
  | some n ↦ digits_from (acc * 10 + n) s
]

abbrev number_at : String → Option (ℕ × String)
number_at String.[] = none
number_at (String.◌∷◌ ch s) = elim (digit_of ch) [ none ↦ none | some n ↦ some (digits_from n s) ]

abbrev dotted_number_at : String → Option (ℕ × String)
dotted_number_at String.[] = none
dotted_number_at (String.◌∷◌ ch s) = if is_dot ch then number_at s else none

abbrev pub Version : Type 0
Version = ℕ × ℕ × ℕ

-- `(\d+)\.(\d+)\.(\d+)` at the start of a text
version_at : String → Option Version
version_at s = elim (number_at s) [
  | none ↦ none
  | some (major, r) ↦ elim (dotted_number_at r) [
    | none ↦ none
    | some (minor, r') ↦ elim (dotted_number_at r') [
      | none ↦ none
      | some (patch, _) ↦ some (major, minor, patch)
    ]
  ]
]

-- `VERSION_RE.search`
unfoldable pub search_version : String → Option Version
unfolding version_at digits_from
search_version String.[] = none
search_version (String.◌∷◌ ch s) =
    let rest = search_version s in
    elim (version_at (String.◌∷◌ ch s)) [ none ↦ rest | some v ↦ some v ]

-- `version < MIN_MOONLIGHT_VERSION`, in the order of tuples
unfoldable pub version_below : Version → Version → Bool
version_below (a, b, c) (x, y, z) = ltb a x || (eqb a x && (ltb b y || (eqb b y && ltb c z)))

abbrev pub min_moonlight_version : Version
min_moonlight_version = (6, 0, 0)

-- the parts of the output that are not blank, joined by a line end
abbrev joined : String → String → String
joined out err =
    if is_empty out then err else if is_empty err then out else concat (out ∷ "\n" ∷ err ∷ [])

module _ (w : Services) (c : AppConfig) where
  unfoldable pub version_failed : String → Exn → Exec Daemon Completed
  version_failed binary (timeout_expired _) =
      invalid "Moonlight version check timed out: {}" (binary ∷ [])
  version_failed binary (os_error reason) = raise (
      runtime_validation_error
        (formatted_with "Failed to read Moonlight version from {}: {}" (binary ∷ []) reason))
  version_failed binary e = raise e

  unfoldable pub version_or_invalid : String → ℕ → Option Version → Exec Daemon Version
  version_or_invalid output returncode none =
      invalid "Unable to determine Moonlight version: {}" (output ∷ [])
  version_or_invalid output returncode (some v) =
      if eqb returncode 0
      then pure v
      else invalid "Unable to determine Moonlight version: {}" (output ∷ [])

  unfoldable pub moonlight_version : String → Exec Daemon Version
  unfolding version_failed version_or_invalid
  moonlight_version name = do
    binary ← resolved_binary w c name
    session_user_known w c
    let command : List String = binary ∷ "--version" ∷ []
    completed ←
        try_then (call (Call.run_moonlight command) (λ t. w.run_moonlight t command))
          (version_failed name) pure
    let output = joined (strip completed.stdout) (strip completed.stderr)
    version_or_invalid output completed.returncode (search_version output)

  unfoldable pub check_moonlight_binary : ConsoleMoonlightConfig → Exec Daemon Unit
  check_moonlight_binary m = do
    ensure_binary_available w m.binary
    version ← moonlight_version m.binary
    if version_below version min_moonlight_version
        then invalid "Moonlight version must be >= 6.0.0" []
        else pure tt

  -- `_validate_moonlight_startup_prerequisites`
  unfoldable pub validate_moonlight_startup : ConsoleMoonlightConfig → Exec Daemon Unit
  validate_moonlight_startup m = do
    if w.validate_runtime_dependencies then check_moonlight_binary m else pure tt
    directory ← gets (λ (d : Daemon). w.files.is_dir d.trace m.state_dir)
    marker ←
        gets (λ (d : Daemon). w.files.exists d.trace (concat (m.state_dir ∷ "/portable.dat" ∷ [])))
    if not directory
        then invalid "Moonlight state_dir is not a directory: {}" (m.state_dir ∷ [])
        else if not marker
        then invalid "Moonlight portable marker is missing: {}" (m.state_dir ∷ [])
        else pure tt

  unfoldable pub looking_glass_binary : Option ConsoleLookingGlassConfig → Exec Daemon String
  looking_glass_binary none =
      raise (
        assertion_error
          (text "Looking Glass backend selected without console.looking_glass config"))
  looking_glass_binary (some l) = pure l.binary

  -- `_configured_console_launcher`
  unfoldable pub configured_console_launcher : Exec Daemon String
  unfolding looking_glass_binary
  configured_console_launcher =
      if c.target.console_backend == "looking-glass"
      then looking_glass_binary c.console.looking_glass
      else if c.target.console_backend == "moonlight"
      then with_moonlight c.console.moonlight (λ m. pure m.binary) (raise no_moonlight_config)
      else pure "remote-viewer"

  -- the loop over the required binaries, each looked at once
  unfoldable pub ensure_each : List String → List String → Exec Daemon Unit
  ensure_each seen [] = pure tt
  ensure_each seen (b ∷ bs) =
      let again = ensure_each seen bs in
      let next = ensure_each (b ∷ seen) bs in
      if one_of b seen then again else (do ensure_binary_available w b; next)

  -- every backend of the configuration is an implemented one
  unfoldable pub validate_runtime_dependencies : Exec Daemon Unit
  validate_runtime_dependencies = do
    if one_of c.target.console_backend ("spice" ∷ "vnc" ∷ "looking-glass" ∷ "moonlight" ∷ [])
        then (do
          launcher ← configured_console_launcher
          ensure_each [] (c.display.power_helper ∷ launcher ∷ []))
        else ensure_each [] (c.display.power_helper ∷ [])

  unfoldable pub validate_console_startup_prerequisites : Exec Daemon Unit
  validate_console_startup_prerequisites =
      if c.target.console_backend == "looking-glass"
      then validate_looking_glass_preflight w c.console.looking_glass
      else if c.target.console_backend == "moonlight"
      then with_moonlight c.console.moonlight validate_moonlight_startup (raise no_moonlight_config)
      else pure tt

  unfoldable pub prepare_power_button_capture : Exec Daemon Unit
  prepare_power_button_capture = if not c.input.forward_power_button then pure tt else do
    call Call.validate_policy w.validate_policy
    call Call.open_source w.open_source
    modify (λ d. record d { has_power_button_source = true })

  unfoldable pub startup_failed : Exn → Exec Daemon Unit
  startup_failed (power_button_error reason) =
      modify (λ d. persist_state (set_startup_error reason d))
  startup_failed (runtime_validation_error reason) =
      modify (λ d. persist_state (set_startup_error reason d))
  startup_failed e = raise e

  unfoldable pub startup_checks : Exec Daemon Unit
  startup_checks = do
    if w.validate_runtime_dependencies then validate_runtime_dependencies else pure tt
    validate_console_startup_prerequisites
    prepare_power_button_capture

  unfoldable pub start_with : Option Reason → Exec Daemon Unit
  unfolding startup_failed
  start_with (some reason) = modify (λ d. persist_state (set_startup_error reason d))
  start_with none = do
    node ←
        call (Call.resolve_node_name c.target.node_name)
          (λ t. w.resolve_node_name t c.target.node_name)
    modify (λ d. record d { state = record d.state { node_name = node } })
    try_then startup_checks startup_failed (λ _. modify (then_persist waiting_for_session))

  unfoldable pub start : ℕ → Exec Daemon Unit
  unfolding start_with
  start now = do
    modify (λ d. record d { started_at = some now })
    startup_error ← gets (λ (d : Daemon). d.startup_error)
    start_with startup_error

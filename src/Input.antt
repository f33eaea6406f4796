-- ===== src/Input.antt =====
-- The power button of the host, relayinner_display/input.py: the evdev source and the check that
-- logind leaves the button alone.
pub mod Policy
use Prim.Native.Char.{Char, code}
use relay_inner_display_scri.Base.{
  ℕ, suc, ◌+◌, String, Bool, true, false, not, ◌&&◌, ◌||◌, Option, none, some, List, [], ◌∷◌, ◌++◌,
  eqb, if◌then◌else◌, ◌==◌, strip, is_empty, keep_if,
}
use relay_inner_display_scri.Exec.{
  Reason, text, formatted, formatted_with, Exn, power_button_error, os_error, Outcome, ok, raised,
}

-- `evdev.InputEvent`, without its time
pub record InputEvent : Type 0 where
  pub kind : ℕ
  pub code : ℕ
  pub value : ℕ

-- `evdev.ecodes`
pub record Ecodes : Type 0 where
  pub ev_key : ℕ
  pub key_power : ℕ

-- The attributes of `EvdevPowerButtonSource`: an open device is given by the events that it holds.
pub record Source : Type 0 where
  pub device_path : String
  pub device : Option (List InputEvent)
  pub ecodes : Option Ecodes

-- What importing evdev and opening the device give; the import is `none` where it fails.
abbrev pub opened_device : Source → Ecodes → Outcome (List InputEvent) → Outcome (Unit {0}) × Source
opened_device s e (ok events) = (ok tt, record s { device = some events; ecodes = some e })
opened_device s e (raised (os_error reason)) = (
  raised (
      power_button_error
        (formatted_with "Unable to open power-button device {}: {}" (s.device_path ∷ []) reason)),
  s,
)
opened_device s e (raised x) = (raised x, s)

unfoldable pub open_source :
    Option Ecodes → Outcome (List InputEvent) → Source → Outcome (Unit {0}) × Source
open_source none device s =
    (raised (power_button_error (text "python-evdev is required for power-button forwarding")), s)
open_source (some e) device s = opened_device s e device

abbrev pub is_press : Ecodes → InputEvent → Bool
is_press e event = eqb event.kind e.ev_key && eqb event.code e.key_power && eqb event.value 1

-- the loop: events are read until none is left
unfoldable pub count_presses : Ecodes → ℕ → List InputEvent → ℕ
count_presses e accepted [] = accepted
count_presses e accepted (event ∷ events) =
    count_presses e (if is_press e event then accepted + 1 else accepted) events

abbrev polled : Source → Option (List InputEvent) → Option Ecodes → ℕ × Source
polled s (some events) (some e) = (count_presses e 0 events, record s { device = some [] })
polled s _ _ = (0, s)

unfoldable pub poll_presses : Source → ℕ × Source
unfolding count_presses
poll_presses s = polled s s.device s.ecodes

-- also where closing the device raises
unfoldable pub close_source : Source → Source
close_source s = elim s.device [
  | none ↦ s
  | some events ↦ record s { device = none; ecodes = none }
]

-- The files that the checker looks at.
pub record HostFiles : Type 0 where
  pub is_file : String → Bool
  pub is_dir : String → Bool
  -- `sorted(directory.glob("*.conf"))`
  pub conf_files : String → List String
  -- `path.read_text().splitlines()`
  pub lines_of : String → List String

-- the text before the first character with the code
unfoldable pub before : ℕ → String → String
before n String.[] = ""
before n (String.◌∷◌ c s) =
    let rest = before n s in if eqb (Prim.Native.Char.code c) n then "" else String.◌∷◌ c rest

-- `line.split("=", 1)`, `none` where there is no sign
abbrev extended : Char → Option (String × String) → Option (String × String)
extended c none = none
extended c (some (key, value)) = some (String.◌∷◌ c key, value)

unfoldable pub split_assignment : String → Option (String × String)
split_assignment String.[] = none
split_assignment (String.◌∷◌ c s) =
    let later = split_assignment s in
    if eqb (Prim.Native.Char.code c) b'=' then some ("", s) else extended c later

abbrev ends_with_bracket : String → Bool
ends_with_bracket String.[] = false
ends_with_bracket (String.◌∷◌ c s) =
    let rest = ends_with_bracket s in
    if is_empty s then eqb (Prim.Native.Char.code c) b']' else rest

abbrev starts_with_bracket : String → Bool
starts_with_bracket String.[] = false
starts_with_bracket (String.◌∷◌ c s) = eqb (Prim.Native.Char.code c) b'['

-- `line.startswith("[") and line.endswith("]")`
abbrev pub is_section : String → Bool
is_section line = starts_with_bracket line && ends_with_bracket line

-- the line without its comment
unfoldable pub content_of : String → String
unfolding before
content_of raw = strip (before b';' (before b'#' raw))

abbrev power_key_of : Option (String × String) → Option String
power_key_of none = none
power_key_of (some (key, candidate)) =
    if strip key == "HandlePowerKey" then some (strip candidate) else none

-- what an assignment in the section gives
unfoldable pub assigned : Bool → String → Option String
unfolding split_assignment
assigned in_login line = if in_login then power_key_of (split_assignment line) else none

-- a later value, or the earlier one
abbrev pub or_earlier : Option String → Option String → Option String
or_earlier none earlier = earlier
or_earlier (some v) earlier = some v

-- the loop over the lines, with the section and the value so far
unfoldable pub read_lines : Bool → Option String → List String → Option String
unfolding content_of assigned
read_lines in_login value [] = value
read_lines in_login value (raw ∷ lines) =
    let line = content_of raw in
    let after_section = read_lines (line == "[Login]") value lines in
    let after_assignment = read_lines in_login (or_earlier (assigned in_login line) value) lines in
    if is_section line then after_section else after_assignment

module _ (files : HostFiles) where
  unfoldable pub read_handle_power_key : String → Option String
  unfolding read_lines
  read_handle_power_key path = read_lines false none (files.lines_of path)

  abbrev dropins : List String → List String
  dropins [] = []
  dropins (directory ∷ rest) =
      let later = dropins rest in
      if files.is_dir directory
      then keep_if files.is_file (files.conf_files directory) ++ later
      else later

  unfoldable pub iter_config_paths : List String → List String → List String
  iter_config_paths main_configs dropin_dirs =
      keep_if files.is_file main_configs ++ dropins dropin_dirs

  -- the loop over the files
  unfoldable pub effective_in : Option String → List String → Option String
  unfolding read_handle_power_key
  effective_in value [] = value
  effective_in value (path ∷ paths) =
      effective_in (or_earlier (read_handle_power_key path) value) paths

  unfoldable pub effective_handle_power_key : List String → List String → Option String
  unfolding effective_in iter_config_paths
  effective_handle_power_key main_configs dropin_dirs =
      effective_in none (iter_config_paths main_configs dropin_dirs)

  abbrev pub or_unset : Option String → String
  or_unset none = "<unset>"
  or_unset (some v) = if is_empty v then "<unset>" else v

  abbrev pub is_ignored : Option String → Bool
  is_ignored none = false
  is_ignored (some v) = v == "ignore"

  unfoldable pub validate : List String → List String → Outcome (Unit {0})
  unfolding effective_handle_power_key
  validate main_configs dropin_dirs =
      let effective = effective_handle_power_key main_configs dropin_dirs in
      if is_ignored effective
      then ok tt
      else raised (
          power_button_error (
            formatted "Host power-button handling is not disabled; effective HandlePowerKey={!r}"
              (or_unset effective ∷ [])))

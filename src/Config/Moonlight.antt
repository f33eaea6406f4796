-- ===== src/Config/Moonlight.antt =====
-- The host and the resolution of the Moonlight table, as relayinner_display/config.py reads them.
use Prim.Native.Char.{Char, code}
use text.Mathlib.Text.{starts_with}
use relay_inner_display_scri.Base.{
  ℕ, String, Bool, true, false, not, ◌||◌, ◌&&◌, Option, none, some, List, [], ◌∷◌, ltb, leb, eqb,
  if◌then◌else◌, is_empty, is_some, is_space, strip, show_ℕ, concat, length, any_of, all_of,
}
use relay_inner_display_scri.Exec.{Reason, formatted}
use relay_inner_display_scri.Decimal.{max_int_digits, value_of_digits}
use relay_inner_display_scri.Config.{Python}
use relay_inner_display_scri.Config.Checked.{
  Checked, accepted, failed, ◌>>=◌, ◌>>◌, config_error, refuse_if,
}
use relay_inner_display_scri.Config.Toml.{Value, text_value, Table, get}
use relay_inner_display_scri.Config.Platform.{Platform}
use relay_inner_display_scri.Config.Fields.{require_non_empty_string}

abbrev chars : String → List Char
chars String.[] = []
chars (String.◌∷◌ c s) = c ∷ chars s

-- `needle in text`
abbrev contains : String → String → Bool
contains needle String.[] = is_empty needle
contains needle (String.◌∷◌ c s) =
    let later = contains needle s in if starts_with (String.◌∷◌ c s) needle then true else later

-- `text.endswith(c)` for one character
abbrev ends_in : ℕ → List Char → Bool
ends_in n [] = false
ends_in n (c ∷ []) = eqb (code c) n
ends_in n (c ∷ (d ∷ cs)) = ends_in n (d ∷ cs)

abbrev in_range : Char → ℕ → ℕ → Bool
in_range c low high = leb low (code c) && leb (code c) high

-- `[A-Za-z0-9]`
abbrev is_alphanumeric : Char → Bool
is_alphanumeric c = in_range c b'A' b'Z' || (in_range c b'a' b'z' || in_range c b'0' b'9')

-- `[A-Za-z0-9-]`
abbrev is_label_char : Char → Bool
is_label_char c = is_alphanumeric c || eqb (code c) b'-'

abbrev last_is_alphanumeric : List Char → Bool
last_is_alphanumeric [] = false
last_is_alphanumeric (c ∷ []) = is_alphanumeric c
last_is_alphanumeric (c ∷ (d ∷ cs)) = last_is_alphanumeric (d ∷ cs)

abbrev first_is_alphanumeric : List Char → Bool
first_is_alphanumeric [] = false
first_is_alphanumeric (c ∷ cs) = is_alphanumeric c

-- `HOSTNAME_LABEL_RE.fullmatch`: an end of letters and digits on both sides, at most 61 letters,
-- digits and dashes between
unfoldable pub is_hostname_label : List Char → Bool
is_hostname_label cs =
    first_is_alphanumeric cs
    && (last_is_alphanumeric cs && (all_of is_label_char cs && leb (length cs) 63))

-- `value.split(".")`, the first label and the later ones
split_labels : List Char → List Char × List (List Char)
split_labels [] = ([], [])
split_labels (c ∷ cs) =
    let (label, labels) = split_labels cs in
    if eqb (code c) b'.' then ([], label ∷ labels) else (c ∷ label, labels)

unfoldable pub is_hostname : String → Bool
unfolding split_labels is_hostname_label
is_hostname value =
    let (label, labels) = split_labels (chars value) in
    is_hostname_label label && all_of is_hostname_label labels

unfoldable pub require_moonlight_host : Python → Table → String → Checked String
require_moonlight_host py t key = do
  given ← require_non_empty_string t key
  let value = strip given
  refuse_if (contains "://" value || contains "/" value)
      "{!r} must be a hostname or IP literal without a URL scheme" (key ∷ [])
  refuse_if (starts_with value "[" || ends_in b']' (chars value))
      "{!r} must not include IPv6 brackets" (key ∷ [])
  refuse_if (any_of is_space (chars value)) "{!r} must not contain whitespace" (key ∷ [])
  refuse_if (not (is_some (py.ip_version value) || is_hostname value))
      "{!r} must be a valid hostname or IP literal" (key ∷ [])
  accepted value

abbrev pub int_limit : Reason
int_limit =
    formatted "Exceeds the limit ({} digits) for integer string conversion"
      (show_ℕ max_int_digits ∷ [])

-- `int(digits)`, which raises a plain ValueError for a text that is too long
unfoldable pub int_of : List ℕ → Checked ℕ
unfolding value_of_digits
int_of digits =
    if ltb max_int_digits (length digits)
    then failed int_limit
    else accepted (value_of_digits 0 digits)

module _ (lib : Platform) where
  -- `\d+` and what follows it, where the run of digits may be empty
  unfoldable pub digit_run : String → List ℕ × String
  digit_run String.[] = ([], "")
  digit_run (String.◌∷◌ c s) =
      let (digits, rest) = digit_run s in
      elim (lib.decimal_value c) [ none ↦ ([], String.◌∷◌ c s) | some d ↦ (d ∷ digits, rest) ]

  -- `[xX]`
  abbrev is_cross : Char → Bool
  is_cross c = eqb (code c) b'x' || eqb (code c) b'X'

  abbrev has_digits : List ℕ → Bool
  has_digits [] = false
  has_digits (_ ∷ _) = true

  -- the part of the match after the width
  abbrev match_height : List ℕ → String → Option (List ℕ × List ℕ)
  match_height width String.[] = none
  match_height width (String.◌∷◌ c s) =
      let (height, rest) = digit_run s in
      if has_digits width && (is_cross c && (has_digits height && is_empty rest))
      then some (width, height)
      else none

  -- `MOONLIGHT_RESOLUTION_RE.fullmatch`
  unfoldable pub match_resolution : String → Option (List ℕ × List ℕ)
  unfolding digit_run
  match_resolution s = let (width, rest) = digit_run s in match_height width rest

  abbrev pub resolution_from : String → Option (List ℕ × List ℕ) → Checked (Option String)
  resolution_from key none = config_error "{!r} must be in '<width>x<height>' form" (key ∷ [])
  resolution_from key (some (ws, hs)) = do
    width ← int_of ws
    height ← int_of hs
    refuse_if (eqb width 0 || eqb height 0) "{!r} width and height must be > 0" (key ∷ [])
    accepted (some (concat (show_ℕ width ∷ "x" ∷ show_ℕ height ∷ [])))

  abbrev pub resolution_in : String → Option Value → Checked (Option String)
  resolution_in key none = accepted none
  resolution_in key (some (text_value s)) = resolution_from key (match_resolution (strip s))
  resolution_in key (some _) = config_error "Missing or invalid string value for {!r}" (key ∷ [])

  unfoldable pub optional_moonlight_resolution : Table → String → Checked (Option String)
  unfolding match_resolution int_of
  optional_moonlight_resolution t key = resolution_in key (get t key)

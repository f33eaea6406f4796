-- ===== src/Moonlight/Escapes.antt =====
-- `_decode_moonlight_qsettings_bytearray`: the escapes of a byte array in a settings file.
pub mod Doubled
use Prim.Native.Char.{Char, code}
use text.Mathlib.Text.{starts_with}
use relay_inner_display_scri.Base.{
  ℕ, ◌+◌, ◌-◌, ◌*◌, String, Bool, true, false, not, ◌&&◌, ◌||◌, Option, none, some, eqb, leb,
  if◌then◌else◌, is_empty, strip,
}
use relay_inner_display_scri.Moonlight.{Library, ends_with_code, without_last}

-- the value of a hexadecimal digit
abbrev pub hex_value : Char → Option ℕ
hex_value c =
    if leb b'0' (code c) && leb (code c) b'9'
    then some (code c - 48)
    else if leb b'a' (code c) && leb (code c) b'f'
    then some (code c - 87)
    else if leb b'A' (code c) && leb (code c) b'F'
    then some (code c - 55)
    else none

-- the character of an escape that is not a hexadecimal one
abbrev pub simple_escape : Char → Char
simple_escape c =
    if eqb (code c) b'n'
    then "\n"
    else if eqb (code c) b'r'
    then "\r"
    else if eqb (code c) b't'
    then "\t"
    else c

-- the value of two hexadecimal digits
abbrev pub hex_pair : Option ℕ → Option ℕ → Option ℕ
hex_pair (some high) (some low) = some (high * 16 + low)
hex_pair _ _ = none

abbrev pub is_backslash : Char → Bool
is_backslash c = eqb (code c) b'\\'

abbrev pub pair_after : Char → String → Option ℕ
pair_after c String.[] = none
pair_after c (String.◌∷◌ h String.[]) = none
pair_after c (String.◌∷◌ h (String.◌∷◌ l rest)) =
    if eqb (code c) b'x' then hex_pair (hex_value h) (hex_value l) else none

-- what follows the prefix
abbrev strip_prefix : String → String → String
strip_prefix String.[] s = s
strip_prefix (String.◌∷◌ p ps) String.[] = ""
strip_prefix (String.◌∷◌ p ps) (String.◌∷◌ c s) = strip_prefix ps s

-- The loop over the characters. The lookahead of an escape `\x` takes two more of them.
module _ (lib : Library) where
  unfoldable pub decode_chars : String → String
  decode_chars String.[] = ""
  decode_chars (String.◌∷◌ c String.[]) = String.◌∷◌ c ""
  decode_chars (String.◌∷◌ c (String.◌∷◌ e String.[])) = elim (is_backslash c) [
    | false ↦ String.◌∷◌ c (decode_chars (String.◌∷◌ e String.[]))
    | true ↦ String.◌∷◌ (simple_escape e) ""
  ]
  decode_chars (String.◌∷◌ c (String.◌∷◌ e (String.◌∷◌ h String.[]))) = elim (is_backslash c) [
    | false ↦ String.◌∷◌ c (decode_chars (String.◌∷◌ e (String.◌∷◌ h String.[])))
    | true ↦ String.◌∷◌ (simple_escape e) (decode_chars (String.◌∷◌ h String.[]))
  ]
  decode_chars (String.◌∷◌ c (String.◌∷◌ e (String.◌∷◌ h (String.◌∷◌ l rest)))) =
      elim (is_backslash c) [
        | false ↦ String.◌∷◌ c (decode_chars (String.◌∷◌ e (String.◌∷◌ h (String.◌∷◌ l rest))))
        | true ↦ elim (pair_after e (String.◌∷◌ h (String.◌∷◌ l rest))) [
          | none ↦ String.◌∷◌ (simple_escape e) (decode_chars (String.◌∷◌ h (String.◌∷◌ l rest)))
          | some n ↦ String.◌∷◌ (lib.chr n) (decode_chars rest)
        ]
      ]

  -- `value.startswith("@ByteArray(")` and what follows
  abbrev without_tag : String → String
  without_tag s =
      if starts_with s "@ByteArray(" && ends_with_code b')' s
      then without_last (strip_prefix "@ByteArray(" s)
      else s

  abbrev is_quote : ℕ → Bool
  is_quote n = eqb n b'"' || eqb n b'\''

  -- the text inside a pair of equal quotes
  abbrev unquoted : String → String
  unquoted String.[] = ""
  unquoted (String.◌∷◌ c s) =
      if is_quote (code c) && (not (is_empty s) && ends_with_code (code c) s)
      then strip (without_last s)
      else String.◌∷◌ c s

  abbrev filled : String → Option String
  filled s = if is_empty s then none else some s

  unfoldable pub decode_bytearray : String → Option String
  unfolding decode_chars without_last
  decode_bytearray value =
      let encoded = unquoted (strip value) in
      if is_empty encoded then none else filled (strip (decode_chars (without_tag encoded)))

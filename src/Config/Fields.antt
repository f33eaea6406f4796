-- ===== src/Config/Fields.antt =====
-- The validators of relayinner_display/config.py that read one field of a table.
pub mod Escapes
use relay_inner_display_scri.Base.{
  ℕ, zero, suc, ◌+◌, String, Bool, true, not, ◌||◌, ◌==◌, ℤ, pos, negsuc, Option, none, some, List,
  [], ◌∷◌, ltb, if◌then◌else◌, is_empty, strip, show_ℕ, comma_joined, sorted, concat,
}
use Prim.Native.String.{compare}
use Prim.Native.Nat.{Ordering}
use relay_inner_display_scri.Config.Checked.{
  Checked, accepted, ◌>>=◌, ◌>>◌, config_error, refuse_if,
}
use relay_inner_display_scri.Config.Toml.{
  Value, text_value, integer, boolean, table, Table, no_entries, get, has_key, has_entries,
  other_keys,
}
use relay_inner_display_scri.Config.Platform.{Platform}

abbrev pub max_vnc_display_number : ℕ
max_vnc_display_number = 59635

abbrev pub max_port_number : ℕ
max_port_number = 65535

-- `table.get(key, default)`
abbrev pub value_or : Option Value → Value → Value
value_or none default = default
value_or (some v) default = v

abbrev pub table_of : String → Option Value → Checked Table
table_of key (some (table t)) = accepted t
table_of key _ = config_error "Missing required [{}] table" (key ∷ [])

unfoldable pub require_table : Table → String → Checked Table
require_table raw key = table_of key (get raw key)

abbrev table_or_empty : String → Option Value → Checked Table
table_or_empty key none = accepted no_entries
table_or_empty key (some (table t)) = accepted t
table_or_empty key (some _) = config_error "Invalid [{}] table" (key ∷ [])

unfoldable pub optional_table : Table → String → Checked Table
optional_table raw key = table_or_empty key (get raw key)

abbrev no_string : {A : Type 0} → String → Checked A
no_string key = config_error "Missing or invalid string value for {!r}" (key ∷ [])

abbrev string_of : String → Value → Checked String
string_of key (text_value s) = accepted s
string_of key _ = no_string key

unfoldable pub non_empty_string_of : String → Value → Checked String
non_empty_string_of key (text_value s) = if is_empty (strip s) then no_string key else accepted s
non_empty_string_of key _ = no_string key

abbrev non_empty_string_in : String → Option Value → Checked String
non_empty_string_in key none = no_string key
non_empty_string_in key (some v) = non_empty_string_of key v

unfoldable pub require_non_empty_string : Table → String → Checked String
require_non_empty_string t key = non_empty_string_in key (get t key)

unfoldable pub optional_string : Table → String → String → Checked String
optional_string t key default = string_of key (value_or (get t key) (text_value default))

unfoldable pub optional_non_empty_string : Table → String → String → Checked String
optional_non_empty_string t key default =
    non_empty_string_of key (value_or (get t key) (text_value default))

abbrev no_positive : {A : Type 0} → String → Checked A
no_positive key = config_error "Missing or invalid positive integer value for {!r}" (key ∷ [])

unfoldable pub positive_of : String → Value → Checked ℕ
positive_of key (integer (pos (suc n))) = accepted (suc n)
positive_of key _ = no_positive key

abbrev pub positive_in : String → Option Value → Checked ℕ
positive_in key none = no_positive key
positive_in key (some v) = positive_of key v

unfoldable pub require_positive_int : Table → String → Checked ℕ
unfolding positive_of
require_positive_int t key = positive_in key (get t key)

abbrev no_natural : {A : Type 0} → String → Checked A
no_natural key = config_error "Missing or invalid non-negative integer value for {!r}" (key ∷ [])

abbrev natural_of : String → Value → Checked ℕ
natural_of key (integer (pos n)) = accepted n
natural_of key _ = no_natural key

unfoldable pub optional_non_negative_int : Table → String → ℕ → Checked ℕ
optional_non_negative_int t key default =
    natural_of key (value_or (get t key) (integer (pos default)))

abbrev boolean_of : String → Value → Checked Bool
boolean_of key (boolean b) = accepted b
boolean_of key _ = config_error "Missing or invalid boolean value for {!r}" (key ∷ [])

unfoldable pub optional_bool : Table → String → Bool → Checked Bool
optional_bool t key default = boolean_of key (value_or (get t key) (boolean default))

abbrev natural_in : String → Option Value → Checked ℕ
natural_in key none = no_natural key
natural_in key (some v) = natural_of key v

unfoldable pub require_vnc_display_number : Table → String → Checked ℕ
require_vnc_display_number t key = do
  value ← natural_in key (get t key)
  refuse_if (ltb max_vnc_display_number value)
      "{!r} must be <= {} so the derived VNC port stays <= 65535"
      (key ∷ show_ℕ max_vnc_display_number ∷ [])
  accepted value

unfoldable pub optional_port : Table → String → ℕ → Checked ℕ
optional_port t key default = do
  value ← positive_of key (value_or (get t key) (integer (pos default)))
  refuse_if (ltb max_port_number value) "{!r} must be <= {}" (key ∷ show_ℕ max_port_number ∷ [])
  accepted value

abbrev only_these : String → String → List String → Checked (Unit {0})
only_these template label [] = accepted tt
only_these template label (k ∷ ks) =
    config_error template (label ∷ comma_joined (sorted (k ∷ ks)) ∷ [])

unfoldable pub require_only_keys : Table → List String → String → Checked (Unit {0})
require_only_keys t allowed label =
    only_these "Unexpected field(s) for {}: {}" label (other_keys t allowed)

unfoldable pub require_subset_keys : Table → String → List String → Checked (Unit {0})
require_subset_keys t label allowed =
    only_these "Unexpected table in [{}]: {}" label (other_keys t allowed)

unfoldable pub require_empty_table : Table → String → String → Checked (Unit {0})
require_empty_table block backend label =
    refuse_if (has_entries block) "{} is not valid for console_backend={!r}" (label ∷ backend ∷ [])

module _ (lib : Platform) where
  -- `path = Path(value)` and the test that follows it
  absolute : String → String → Checked String
  absolute key value =
      if lib.is_absolute (lib.path value)
      then accepted (lib.path value)
      else config_error "{!r} must be an absolute path" (key ∷ [])

  unfoldable pub require_absolute_path : Table → String → Checked String
  unfolding absolute
  require_absolute_path t key = do value ← require_non_empty_string t key; absolute key value

  unfoldable pub optional_absolute_path : Table → String → String → Checked String
  unfolding absolute
  optional_absolute_path t key default = do
    value ← optional_non_empty_string t key default
    absolute key value

  unfoldable pub optional_absolute_path_or_none : Table → String → Checked (Option String)
  optional_absolute_path_or_none t key =
      if has_key t key
      then (require_absolute_path t key >>= λ path. accepted (some path))
      else accepted none

  unfoldable pub optional_command_or_absolute_path : Table → String → String → Checked String
  optional_command_or_absolute_path t key default = do
    given ← optional_non_empty_string t key default
    let value = strip given
    let path = lib.path value
    refuse_if (not (lib.is_absolute path || lib.file_name path == value))
        "{!r} must be a bare executable name or an absolute path" (key ∷ [])
    accepted value

  unfoldable pub require_child_path : String → String → String → Checked (Unit {0})
  require_child_path root child label =
      refuse_if (not (lib.is_below root child)) "{} must live under {}" (label ∷ root ∷ [])

-- ===== src/Ipc/Validate.antt =====
-- The validation of messages in relayinner_display/ipc.py.
pub mod Events
use relay_inner_display_scri.Base.{
  String, Bool, true, false, not, ◌&&◌, ◌||◌, Option, none, some, List, [], ◌∷◌, ◌++◌, map,
  is_empty, strip, one_of, comma_joined, sorted, if◌then◌else◌, ◌==◌,
}
use relay_inner_display_scri.Exec.{
  Reason, formatted, text, Exn, ipc_error, other, Outcome, ok, raised,
}
use relay_inner_display_scri.Exec.Results.{◌>>=◌, ◌>>◌, raise_if}
use relay_inner_display_scri.Json.{
  Json, null, boolean, integer, floating, string, array, object, Items, no_items, item, Fields,
  no_fields, field, lookup, other_fields,
}

-- A validator returns a truth value, or raises a TypeError: a list or an object has no hash.
pub data Verdict : Type 0 where
  valid invalid no_hash : Verdict

abbrev pub Validator : Type 0
Validator = Json → Verdict

abbrev verdict : Bool → Verdict
verdict true = valid
verdict false = invalid

unfoldable pub is_integer : Validator
is_integer (integer _) = valid
is_integer _ = invalid

abbrev pub is_filled : Json → Bool
is_filled (string s) = not (is_empty (strip s))
is_filled _ = false

unfoldable pub is_non_empty_string : Validator
is_non_empty_string v = verdict (is_filled v)

unfoldable pub is_string : Validator
is_string (string _) = valid
is_string _ = invalid

abbrev all_items_filled : Items → Bool
all_items_filled no_items = true
all_items_filled (item v rest) = let later = all_items_filled rest in is_filled v && later

unfoldable pub is_string_list : Validator
is_string_list (array (item v rest)) = verdict (all_items_filled (item v rest))
is_string_list _ = invalid

unfoldable pub is_power_state : Validator
is_power_state (string s) = verdict (s == "on" || s == "off")
is_power_state (array _) = no_hash
is_power_state (object _) = no_hash
is_power_state _ = invalid

abbrev all_members_filled : Fields → Bool
all_members_filled no_fields = true
all_members_filled (field k v rest) =
    let later = all_members_filled rest in not (is_empty (strip k)) && is_filled v && later

unfoldable pub is_string_dict : Validator
is_string_dict (object (field k v rest)) = verdict (all_members_filled (field k v rest))
is_string_dict _ = invalid

-- the validators of the fields of one type of message
abbrev pub Schema : Type 0
Schema = List (String × Validator)

abbrev pub keys : Schema → List String
keys [] = []
keys ((k, _) ∷ rest) = k ∷ keys rest

-- `schema[message_type]`
abbrev pub schema_of : String → List (String × Schema) → Option Schema
schema_of name [] = none
schema_of name ((n, s) ∷ rest) =
    let later = schema_of name rest in if n == name then some s else later

-- `optional_schema.get(message_type, {})`
abbrev pub or_none : Option Schema → Schema
or_none none = []
or_none (some s) = s

abbrev pub judged : String → String → Verdict → Outcome (Unit {0})
judged type key valid = ok tt
judged type key invalid =
    raised (ipc_error (formatted "Invalid value for field {!r} in {}" (key ∷ type ∷ [])))
judged type key no_hash = raised (other (text "TypeError: unhashable type"))

abbrev pub required : String → String → Validator → Option Json → Outcome (Unit {0})
required type key check none =
    raised (ipc_error (formatted "Missing required field {!r} for {}" (key ∷ type ∷ [])))
required type key check (some v) = judged type key (check v)

abbrev pub optional : String → String → Validator → Option Json → Outcome (Unit {0})
optional type key check none = ok tt
optional type key check (some v) = judged type key (check v)

-- the loop over `allowed_fields`
unfoldable pub check_required : String → Schema → Fields → Outcome (Unit {0})
check_required type [] payload = ok tt
check_required type ((key, check) ∷ rest) payload =
    let later = check_required type rest payload in
    required type key check (lookup payload key) >> later

-- the loop over `optional_fields`
unfoldable pub check_optional : String → Schema → Fields → Outcome (Unit {0})
check_optional type [] payload = ok tt
check_optional type ((key, check) ∷ rest) payload =
    let later = check_optional type rest payload in
    optional type key check (lookup payload key) >> later

abbrev refuse_extras : String → List String → Outcome (Unit {0})
refuse_extras type [] = ok tt
refuse_extras type (k ∷ ks) = raised (
    ipc_error
      (formatted "Unexpected field(s) for {}: {}" (type ∷ comma_joined (sorted (k ∷ ks)) ∷ [])))

-- the steps for a known type
unfoldable pub check_fields : String → Schema → Schema → Fields → Outcome Fields
unfolding check_required check_optional
check_fields type allowed optional_fields payload = do
  refuse_extras type (other_fields payload ("type" ∷ keys allowed ++ keys optional_fields))
  check_required type allowed payload
  check_optional type optional_fields payload
  ok payload

abbrev pub checked : String → String → Option Schema → Schema → Fields → Outcome Fields
checked source type none optional_fields payload =
    raised (ipc_error (formatted "Unsupported {} message type: {}" (source ∷ type ∷ [])))
checked source type (some allowed) optional_fields payload =
    check_fields type allowed optional_fields payload

abbrev pub typed :
    String → List (String × Schema) → List (String × Schema) → Option Json → Fields → Outcome Fields
typed source schema optional_schema (some (string type)) payload =
    checked source type (schema_of type schema) (or_none (schema_of type optional_schema)) payload
typed source schema optional_schema _ payload =
    raised (ipc_error (formatted "{} message is missing a valid 'type'" (source ∷ [])))

unfoldable pub validate_message :
    String → List (String × Schema) → List (String × Schema) → Fields → Outcome Fields
unfolding check_fields
validate_message source schema optional_schema payload =
    typed source schema optional_schema (lookup payload "type") payload

abbrev pub session_to_daemon_fields : List (String × Schema)
session_to_daemon_fields =
    ("session_ready", [])
    ∷ ("console_started", ("pid", is_integer) ∷ [])
    ∷ ("console_exited", ("code", is_integer) ∷ ("signal", is_integer) ∷ [])
    ∷ ("display_power_applied", ("state", is_power_state) ∷ [])
    ∷ ("session_error", ("reason", is_non_empty_string) ∷ [])
    ∷ []

abbrev pub session_to_daemon_optional_fields : List (String × Schema)
session_to_daemon_optional_fields =
    ("console_started", ("backend", is_non_empty_string) ∷ [])
    ∷ ("console_exited", ("backend", is_non_empty_string) ∷ [])
    ∷ []

unfoldable pub validate_session_message : Fields → Outcome Fields
unfolding validate_message is_integer is_power_state is_non_empty_string
validate_session_message =
    validate_message "session" session_to_daemon_fields session_to_daemon_optional_fields

module _ (is_absolute : String → Bool) where
  unfoldable pub is_absolute_path_string : Validator
  is_absolute_path_string (string s) = verdict (not (is_empty (strip s)) && is_absolute s)
  is_absolute_path_string _ = invalid

  abbrev pub daemon_to_session_fields : List (String × Schema)
  daemon_to_session_fields =
      ("show_waiting", ("reason", is_non_empty_string) ∷ [])
      ∷ (
        "connect_console",
        ("backend", is_non_empty_string)
            ∷ ("launcher", is_non_empty_string)
            ∷ ("argv", is_string_list)
            ∷ [],
      )
      ∷ ("connect_spice", ("vv_path", is_non_empty_string) ∷ [])
      ∷ ("disconnect_console", ("reason", is_non_empty_string) ∷ [])
      ∷ ("display_power", ("state", is_power_state) ∷ ("output", is_string) ∷ [])
      ∷ ("health_ping", [])
      ∷ []

  abbrev pub daemon_to_session_optional_fields : List (String × Schema)
  daemon_to_session_optional_fields =
      ("show_waiting", ("details", is_string_dict) ∷ [])
      ∷ ("connect_console", ("cwd", is_absolute_path_string) ∷ [])
      ∷ []

  unfoldable pub validate_daemon_message : Fields → Outcome Fields
  unfolding validate_message is_power_state is_non_empty_string is_string is_string_list
      is_string_dict is_absolute_path_string
  validate_daemon_message =
      validate_message "daemon" daemon_to_session_fields daemon_to_session_optional_fields

-- ===== src/Ipc/Shapes.antt =====
-- The messages of both directions as JSON objects: how the sender builds them, and how the receiver
-- takes a validated object apart.
use relay_inner_display_scri.Base.{
  ℤ, String, Option, none, some, List, [], ◌∷◌, if◌then◌else◌, ◌==◌,
}
use relay_inner_display_scri.Exec.{Reason, text}
use relay_inner_display_scri.Message.{
  Event, session_ready, console_started, console_exited, display_power_applied, session_error,
  Message, show_waiting, connect_console, connect_spice, disconnect_console, display_power,
  health_ping,
}
use relay_inner_display_scri.Json.{
  Json, integer, string, array, object, Items, no_items, item, Fields, no_fields, field, lookup,
}

-- an optional member
abbrev pub with_text : String → Option String → Fields → Fields
with_text key none rest = rest
with_text key (some s) rest = field key (string s) rest

abbrev pub type_field : String → Fields → Fields
type_field type rest = field "type" (string type) rest

abbrev pub items_of : List String → Items
items_of [] = no_items
items_of (s ∷ ss) = item (string s) (items_of ss)

abbrev pub members_of : List (String × String) → Fields
members_of [] = no_fields
members_of ((k, v) ∷ rest) = field k (string v) (members_of rest)

abbrev pub with_details : Option (List (String × String)) → Fields → Fields
with_details none rest = rest
with_details (some d) rest = field "details" (object (members_of d)) rest

abbrev pub session_ready_fields : Fields
session_ready_fields = type_field "session_ready" no_fields

abbrev pub console_started_fields : ℤ → Option String → Fields
console_started_fields pid backend =
    type_field "console_started" (field "pid" (integer pid) (with_text "backend" backend no_fields))

abbrev pub console_exited_fields : ℤ → ℤ → Option String → Fields
console_exited_fields code signal backend = type_field "console_exited" (
    field "code" (integer code)
      (field "signal" (integer signal) (with_text "backend" backend no_fields)))

abbrev pub display_power_applied_fields : String → Fields
display_power_applied_fields state =
    type_field "display_power_applied" (field "state" (string state) no_fields)

abbrev pub session_error_fields : String → Fields
session_error_fields reason = type_field "session_error" (field "reason" (string reason) no_fields)

-- the object of an event, built where the session returns it; the text of a reason is given by
-- `render`
unfoldable pub event_fields : (Reason → String) → Event → Fields
event_fields render session_ready = session_ready_fields
event_fields render (console_started pid backend) = console_started_fields pid backend
event_fields render (console_exited code signal backend) = console_exited_fields code signal backend
event_fields render (display_power_applied state) = display_power_applied_fields state
event_fields render (session_error reason) = session_error_fields (render reason)

-- the messages that the daemon sends
unfoldable pub message_fields : Message → Fields
message_fields (show_waiting reason details) =
    type_field "show_waiting" (field "reason" (string reason) (with_details details no_fields))
message_fields (connect_console backend launcher argv cwd) = type_field "connect_console" (
    field "backend" (string backend) (
      field "launcher" (string launcher)
        (field "argv" (array (items_of argv)) (with_text "cwd" cwd no_fields))))
message_fields (connect_spice path) =
    type_field "connect_spice" (field "vv_path" (string path) no_fields)
message_fields (disconnect_console reason) =
    type_field "disconnect_console" (field "reason" (string reason) no_fields)
message_fields (display_power state output) =
    type_field "display_power"
      (field "state" (string state) (field "output" (string output) no_fields))
message_fields health_ping = type_field "health_ping" no_fields

abbrev pub text_in : Option Json → Option String
text_in (some (string s)) = some s
text_in _ = none

abbrev pub started_from : Option Json → Option String → Option Event
started_from (some (integer pid)) backend = some (console_started pid backend)
started_from _ backend = none

abbrev pub exited_from : Option Json → Option Json → Option String → Option Event
exited_from (some (integer code)) (some (integer signal)) backend =
    some (console_exited code signal backend)
exited_from _ _ backend = none

abbrev pub applied_from : Option Json → Option Event
applied_from (some (string state)) = some (display_power_applied state)
applied_from _ = none

abbrev pub error_from : Option Json → Option Event
error_from (some (string reason)) = some (session_error (text reason))
error_from _ = none

abbrev pub event_named : String → Fields → Option Event
event_named type p =
    if type == "session_ready"
    then some session_ready
    else if type == "console_started"
    then started_from (lookup p "pid") (text_in (lookup p "backend"))
    else if type == "console_exited"
    then exited_from (lookup p "code") (lookup p "signal") (text_in (lookup p "backend"))
    else if type == "display_power_applied"
    then applied_from (lookup p "state")
    else if type == "session_error"
    then error_from (lookup p "reason")
    else none

abbrev pub typed_event : Option Json → Fields → Option Event
typed_event (some (string type)) p = event_named type p
typed_event _ p = none

-- what `handle_session_message` takes out of a validated payload, `none` where a key is missing or
-- its value has another type
unfoldable pub event_of : Fields → Option Event
event_of p = typed_event (lookup p "type") p

-- ===== src/Examples/SocketRuns.antt =====
-- The theorem on the byte stream at a concrete stream.
use relay_inner_display_scri.Base.{
  ℕ, String, some, pos, ◌≡◌, refl, true, false, List, [], ◌∷◌, ◌++◌,
}
use relay_inner_display_scri.Exec.{Reason, text, other, Outcome, ok, raised}
use relay_inner_display_scri.Message.{Event, console_started}
use relay_inner_display_scri.Json.{Fields, field, no_fields, string, array, no_items}
use relay_inner_display_scri.Ipc.Validate.{validate_session_message}
use relay_inner_display_scri.Ipc.Validate.Events.{
  reads_sendable, event_of-validate, event_of-event_fields, unhashable_state_escapes,
}
use relay_inner_display_scri.Ipc.Shapes.{event_fields, event_of}
use relay_inner_display_scri.Ipc.{Connection, read_messages}
use relay_inner_display_scri.Ipc.Lines.{lines}
use relay_inner_display_scri.Ipc.Stream.{decode_each, chunks, bytes_of, read_messages-chunks}

abbrev copy : List ℕ → Outcome (List ℕ)
copy line = ok line

-- the bytes of `ab`, a line end, `c`, in two chunks
abbrev two_chunks : List (ℕ × List ℕ)
two_chunks = (97, []) ∷ (98, 10 ∷ 99 ∷ []) ∷ []

abbrev fresh_connection : Connection
fresh_connection = record { is_open = true; buffer = [] }

abbrev one_line : List (List ℕ)
one_line = (97 ∷ 98 ∷ []) ∷ []

read_messages-chunks_example :
    ((read_messages copy (chunks two_chunks) fresh_connection).0 ≡ ok (one_line, false))
    × ((read_messages copy (chunks two_chunks) fresh_connection).1.buffer
        ≡ (lines (fresh_connection.buffer ++ bytes_of two_chunks)).1)
unfolding lines bytes_of decode_each relay_inner_display_scri.Ipc.is_blank_line
read_messages-chunks_example =
    read_messages-chunks copy two_chunks fresh_connection one_line refl refl refl

-- the text of a reason, where it has one
abbrev render : Reason → String
render (text s) = s
render _ = "error"

abbrev started : Event
started = console_started (pos 77) (some "spice")

event_of-event_fields_example :
    (validate_session_message (event_fields render started) ≡ ok (event_fields render started))
    × (event_of (event_fields render started) ≡ some started)
unfolding relay_inner_display_scri.Base.strip
event_of-event_fields_example = event_of-event_fields render started refl

event_of-validate_example : reads_sendable (event_of (event_fields render started)) ≡ true
event_of-validate_example =
    event_of-validate (event_fields render started) (event_fields render started)
      event_of-event_fields_example.0

abbrev list_state : Fields
list_state =
    field "type" (string "display_power_applied") (field "state" (array no_items) no_fields)

unhashable_state_escapes_example :
    validate_session_message list_state ≡ raised (other (text "TypeError: unhashable type"))
unhashable_state_escapes_example =
    unhashable_state_escapes list_state (array no_items) refl refl refl refl

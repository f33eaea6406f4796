-- ===== src/Ipc/Validate/Events.antt =====
-- What the validation of the session's messages gives the daemon.
use mathlib.Core.Path.{subst}
use relay_inner_display_scri.Base.{
  String, Bool, true, false, not, ◌||◌, ◌≡◌, refl, Option, none, some, [], ◌∷◌, ◌==◌, arith, eq_iff,
  is_empty, strip, inl, inr, Bool-cases,
}
use relay_inner_display_scri.Exec.{Reason, text, other, Outcome, ok, raised}
use relay_inner_display_scri.Message.{
  Event, session_ready, console_started, console_exited, display_power_applied, session_error,
}
use relay_inner_display_scri.Json.{Json, Fields, lookup, other_fields, string, array, object}
use relay_inner_display_scri.Ipc.Validate.{
  validate_session_message, no_hash, check_fields, checked, typed, Schema, schema_of, or_none,
  session_to_daemon_fields, session_to_daemon_optional_fields, is_integer, is_non_empty_string,
  is_power_state,
}
use relay_inner_display_scri.Ipc.Shapes.{event_fields, event_of, event_named, typed_event}
use relay_inner_display_scri.Exec.Results.{◌>>=◌, ◌>>◌}

-- the events that the schema allows
abbrev pub is_sendable : (Reason → String) → Event → Bool
is_sendable render session_ready = true
is_sendable render (console_started pid none) = true
is_sendable render (console_started pid (some b)) = not (is_empty (strip b))
is_sendable render (console_exited code signal none) = true
is_sendable render (console_exited code signal (some b)) = not (is_empty (strip b))
is_sendable render (display_power_applied state) = state == "on" || state == "off"
is_sendable render (session_error reason) = not (is_empty (strip (render reason)))

-- the event as the receiver sees it
abbrev pub sent : (Reason → String) → Event → Event
sent render (session_error reason) = session_error (text (render reason))
sent render e = e

-- whether Python can hash the value
abbrev pub has_hash : Json → Bool
has_hash (array _) = false
has_hash (object _) = false
has_hash _ = true

-- the validation of an object with the given type
abbrev of_type : String → Fields → Outcome Fields
of_type type p =
    checked "session" type (schema_of type session_to_daemon_fields)
      (or_none (schema_of type session_to_daemon_optional_fields)) p

-- the text of a reason that came over the socket
abbrev pub plain : Reason → String
plain (text s) = s
plain _ = ""

-- an event was read, and the schema allows it
abbrev pub reads_sendable : Option Event → Bool
reads_sendable none = false
reads_sendable (some e) = is_sendable plain e

-- what a type does for an accepted object
abbrev IsReading : String → Fields → Fields → Type 0
IsReading type p q = of_type type p ≡ ok q → reads_sendable (event_named type q) ≡ true

module _ (p q : Fields) where
  read_ready : IsReading "session_ready" p q
  read_ready h = refl

  read_started : IsReading "console_started" p q
  unfolding check_fields is_integer is_non_empty_string ◌>>=◌
  read_started h = ground arith

  read_exited : IsReading "console_exited" p q
  unfolding check_fields is_integer is_non_empty_string ◌>>=◌
  read_exited h = ground arith

  read_applied : IsReading "display_power_applied" p q
  unfolding check_fields is_power_state ◌>>=◌
  read_applied h = ground arith

  read_error : IsReading "session_error" p q
  unfolding check_fields is_non_empty_string ◌>>=◌
  read_error h = ground arith

  no_schema :
      (type : String) (s : Option Schema) (opt : Schema)
      → s ≡ none
      → checked "session" type s opt p ≡ ok q
      → ⊥
  no_schema type none opt e h = cc h
  no_schema type (some _) opt e h = cc e

  read_named : (type : String) → IsReading type p q
  read_named type h = elim (Bool-cases ("session_ready" == type)) [
    | inl e ↦ at_literal "session_ready" e read_ready
    | inr a ↦ elim (Bool-cases ("console_started" == type)) [
      | inl e ↦ at_literal "console_started" e read_started
      | inr b ↦ elim (Bool-cases ("console_exited" == type)) [
        | inl e ↦ at_literal "console_exited" e read_exited
        | inr c ↦ elim (Bool-cases ("display_power_applied" == type)) [
          | inl e ↦ at_literal "display_power_applied" e read_applied
          | inr d ↦ elim (Bool-cases ("session_error" == type)) [
            | inl e ↦ at_literal "session_error" e read_error
            | inr f ↦
                let unsupported : schema_of type session_to_daemon_fields ≡ none =
                  rw (a, b, c, d, f) in
                let impossible = no_schema type _ _ unsupported h in elim impossible [ ]
          ]
        ]
      ]
    ]
  ]
    where
      at_literal :
          (name : String)
          → (name == type) ≡ true
          → IsReading name p q
          → reads_sendable (event_named type q) ≡ true
      at_literal name e k = subst (λ (t : String). IsReading t p q) ((eq_iff name type).0 e) k h

  read_typed :
      (t : Option Json)
      → typed "session" session_to_daemon_fields session_to_daemon_optional_fields t p ≡ ok q
      → reads_sendable (typed_event t q) ≡ true
  read_typed (some (string type)) h = read_named type h
  read_typed _ h = let impossible : ⊥ = cc h in elim impossible [ ]

-- a chain of checks that returns, returns its value
ok_value : (a b c : Outcome (Unit {0})) (p q : Fields) → (do a; b; c; ok p) ≡ ok q → p ≡ q
unfolding ◌>>=◌
ok_value (ok _) (ok _) (ok _) p q h = cc h
ok_value (raised _) b c p q h = cc h
ok_value (ok _) (raised _) c p q h = cc h
ok_value (ok _) (ok _) (raised _) p q h = cc h

checked-same :
    (type : String) (s : Option Schema) (opt : Schema) (p q : Fields)
    → checked "session" type s opt p ≡ ok q
    → p ≡ q
unfolding check_fields
checked-same type none opt p q h = cc h
checked-same type (some allowed) opt p q h = ok_value _ _ _ p q h

typed-same :
    (t : Option Json) (p q : Fields)
    → typed "session" session_to_daemon_fields session_to_daemon_optional_fields t p ≡ ok q
    → p ≡ q
typed-same (some (string type)) p q h = checked-same type _ _ p q h
typed-same _ p q h = cc h

-- Whatever object of a session message validates, the daemon finds in it the fields of its type
-- with values of their types, and these satisfy the schema: texts that are not blank, and `on`
-- or `off` for a display state.
pub event_of-validate :
    (p q : Fields) → validate_session_message p ≡ ok q → reads_sendable (event_of q) ≡ true
unfolding validate_session_message event_of
event_of-validate p q h =
    subst (λ (r : Fields). reads_sendable (typed_event (lookup r "type") q) ≡ true)
      (typed-same (lookup p "type") p q h) (read_typed p q (lookup p "type") h)

-- An event whose texts are not blank and whose display state is `on` or `off` validates as the
-- session builds it, unchanged, and the daemon reads the same event from it, a reason as its
-- text.
pub event_of-event_fields :
    (render : Reason → String) (e : Event)
    → is_sendable render e ≡ true
    → (validate_session_message (event_fields render e) ≡ ok (event_fields render e))
      × (event_of (event_fields render e) ≡ some (sent render e))
unfolding validate_session_message event_of event_fields ◌>>=◌
event_of-event_fields render session_ready h = (refl, refl)
event_of-event_fields render (console_started pid none) h = (refl, refl)
event_of-event_fields render (console_started pid (some b)) h = (ground arith, refl)
event_of-event_fields render (console_exited code signal none) h = (refl, refl)
event_of-event_fields render (console_exited code signal (some b)) h = (ground arith, refl)
event_of-event_fields render (display_power_applied state) h = (ground arith, refl)
event_of-event_fields render (session_error reason) h = (ground arith, refl)

no_verdict : (v : Json) → has_hash v ≡ false → is_power_state v ≡ no_hash
unfolding is_power_state
no_verdict (array _) e = refl
no_verdict (object _) e = refl
no_verdict _ e = let impossible : ⊥ = ground arith in elim impossible [ ]

-- A report of an applied display power with no further fields, whose state is a list or an
-- object, is not refused with an IPCError: the validation raises a TypeError.
pub unhashable_state_escapes :
    (p : Fields) (state : Json)
    → lookup p "type" ≡ some (string "display_power_applied")
    → other_fields p ("type" ∷ "state" ∷ []) ≡ []
    → lookup p "state" ≡ some state
    → has_hash state ≡ false
    → validate_session_message p ≡ raised (other (text "TypeError: unhashable type"))
unfolding validate_session_message check_fields ◌>>=◌
unhashable_state_escapes p state t extras found h = rw t (rw (extras, found, no_verdict state h))

-- ===== src/Message.antt =====
-- The messages of the session socket, as relayinner_display/daemon.py builds them and
-- relayinner_display/session.py takes them apart.
use relay_inner_display_scri.Base.{String, Option, none, List, ℤ}
use relay_inner_display_scri.Exec.{Reason}

-- From the daemon to the session.
pub data Message : Type 0 where
  show_waiting : (reason : String) → (details : Option (List (String × String))) → Message
  connect_console :
      (backend launcher : String) → (argv : List String) → (cwd : Option String) → Message
  connect_spice : (vv_path : String) → Message
  disconnect_console : (reason : String) → Message
  display_power : (state output : String) → Message
  health_ping : Message

-- From the session to the daemon.
pub data Event : Type 0 where
  session_ready : Event
  console_started : (pid : ℤ) → (backend : Option String) → Event
  console_exited : (code signal : ℤ) → (backend : Option String) → Event
  display_power_applied : (state : String) → Event
  session_error : (reason : Reason) → Event

-- `{"type": "show_waiting", "reason": reason}`
abbrev pub waiting : String → Message
waiting reason = show_waiting reason none

-- ===== src/Supervisor/Loop.antt =====
-- `handle_daemon_message`, and one pass of the inner loop of `run` in relayinner_display/session.py.
use relay_inner_display_scri.Base.{
  ℕ, suc, Bool, true, false, not, Option, none, some, List, [], ◌∷◌, if◌then◌else◌,
}
use relay_inner_display_scri.Exec.{Exec, pure, method, ◌>>=◌, ◌>>◌}
use relay_inner_display_scri.Config.{AppConfig}
use relay_inner_display_scri.Message.{
  Message, show_waiting, connect_console, connect_spice, disconnect_console, display_power,
  health_ping, Event,
}
use relay_inner_display_scri.Supervisor.State.{Host, SessionSupervisor}
use relay_inner_display_scri.Supervisor.Console.{
  show_waiting_state, launch_console, stop_console, poll_console,
}
use relay_inner_display_scri.Supervisor.Power.{apply_display_power}

-- `accepts n` tells whether the socket takes the n-th message that is sent in the pass.
pub record Pass : Type 0 where
  pub messages : List Message
  pub disconnected : Bool
  pub accepts : ℕ → Bool

-- The events go out in order until one is refused: how many were tried, and whether all went.
unfoldable pub send_events : (ℕ → Bool) → ℕ → List Event → ℕ × Bool
send_events accepts n [] = (n, true)
send_events accepts n (e ∷ es) =
    let rest = send_events accepts (suc n) es in if accepts n then rest else (suc n, false)

module _ (w : Host) (c : AppConfig) where
  unfoldable pub handle_daemon_message : Message → Exec SessionSupervisor (List Event)
  handle_daemon_message (show_waiting reason details) = do
    show_waiting_state w c reason details
    pure []
  handle_daemon_message (disconnect_console reason) = do show_waiting_state w c reason none; pure []
  handle_daemon_message (connect_console backend launcher argv cwd) =
      launch_console w c backend launcher argv cwd false
  handle_daemon_message (connect_spice vv_path) =
      launch_console w c "spice" "remote-viewer" ("remote-viewer" ∷ "--full-screen" ∷ vv_path ∷ [])
        none true
  handle_daemon_message (display_power state output) = apply_display_power w state output
  handle_daemon_message health_ping = pure []

  -- `false` where an event was refused, and the messages after it are dropped
  unfoldable pub handle_messages : Pass → ℕ → List Message → Exec SessionSupervisor (ℕ × Bool)
  unfolding send_events handle_daemon_message
  handle_messages p n [] = pure (n, true)
  handle_messages p n (m ∷ ms) = do
    events ← handle_daemon_message m
    let sent = send_events p.accepts n events
    if sent.1 then handle_messages p sent.0 ms else pure sent

  abbrev pub takes_exit : Pass → ℕ → Option Event → Bool
  takes_exit p n none = true
  takes_exit p n (some event) = p.accepts n

  -- whether the inner loop goes on
  unfoldable pub pass : Pass → Exec SessionSupervisor Bool
  unfolding handle_messages
  pass p = if p.disconnected then (do stop_console w c false; pure false) else do
    handled ← handle_messages p 0 p.messages
    if not handled.1 then (do stop_console w c false; pure false) else do
      exit_event ← method (poll_console w c)
      if takes_exit p handled.0 exit_event then pure true else do stop_console w c false; pure false

-- ===== src/Daemon/Loop.antt =====
-- `run`: the loop that reads the session socket, handles its messages, ticks, and sends what both
-- return. A round is given by what the socket does in it.
use relay_inner_display_scri.Base.{
  ℕ, ◌+◌, Bool, true, false, not, Option, List, [], ◌∷◌, if◌then◌else◌,
}
use relay_inner_display_scri.Exec.{Reason, Exec, pure, modify, ◌>>=◌, ◌>>◌, Outcome}
use relay_inner_display_scri.Config.{AppConfig}
use relay_inner_display_scri.Message.{Message, Event}
use relay_inner_display_scri.Services.{Services}
use relay_inner_display_scri.Daemon.State.{Daemon, new_daemon}
use relay_inner_display_scri.Daemon.Session.{on_session_disconnected, handle_session_event}
use relay_inner_display_scri.Daemon.Startup.{start}
use relay_inner_display_scri.Daemon.Tick.{tick}

-- `accepts n` tells whether the socket takes the n-th message that is sent in the round. Each event
-- has the time that its handler reads, and `clock` is the time that the tick reads.
pub record Round : Type 0 where
  pub events : List (ℕ × Event)
  pub disconnected : Bool
  pub accepts : ℕ → Bool
  pub clock : ℕ

-- The messages go out in order until one is refused: how many were tried, and whether all went.
unfoldable pub deliver : (ℕ → Bool) → ℕ → List Message → ℕ × Bool
deliver accepts n [] = (n, true)
deliver accepts n (m ∷ ms) =
    let rest = deliver accepts (n + 1) ms in if accepts n then rest else (n + 1, false)

module _ (w : Services) (c : AppConfig) where
  -- `false` where a message was refused, and the rest of the round is dropped
  unfoldable pub handle_events : Round → ℕ → List (ℕ × Event) → Exec Daemon (ℕ × Bool)
  handle_events r n [] = pure (n, true)
  handle_events r n ((now, e) ∷ es) = do
    responses ← handle_session_event w c now e
    let sent = deliver r.accepts n responses
    if sent.1 then handle_events r sent.0 es else do modify on_session_disconnected; pure sent

  unfoldable pub tick_and_send : Round → ℕ → Exec Daemon Unit
  unfolding deliver
  tick_and_send r n = do
    responses ← tick w c r.clock
    if (deliver r.accepts n responses).1 then pure tt else modify on_session_disconnected

  unfoldable pub round : Round → Exec Daemon Unit
  unfolding handle_events tick_and_send
  round r = do
    if r.disconnected then modify on_session_disconnected else pure tt
    handled ← handle_events r 0 r.events
    if not handled.1 then pure tt else tick_and_send r handled.0

  -- An exception ends the loop.
  unfoldable pub rounds : List Round → Exec Daemon Unit
  unfolding round
  rounds [] = pure tt
  rounds (r ∷ rs) = do round r; rounds rs

  unfoldable pub run : Option Reason → ℕ → List Round → Outcome (Unit {0}) × Daemon
  unfolding rounds
  run startup_error now rs = (do start w c now; rounds rs) (new_daemon c false startup_error)

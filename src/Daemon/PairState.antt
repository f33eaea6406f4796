-- ===== src/Daemon/PairState.antt =====
-- The Moonlight pair state of the daemon, and the startup error, which clears it.
use relay_inner_display_scri.Base.{false, none, some, ◌∷◌, if◌then◌else◌}
use relay_inner_display_scri.Exec.{Reason}
use relay_inner_display_scri.Models.{MoonlightPairState, unknown, paired, degraded}
use relay_inner_display_scri.Services.{Call}
use relay_inner_display_scri.Daemon.State.{Daemon, transition}

unfoldable pub set_moonlight_pair_state : MoonlightPairState → Daemon → Daemon
set_moonlight_pair_state s d = record d { state = record d.state { moonlight_pair_state = s } }

unfoldable pub mark_moonlight_as_paired : Daemon → Daemon
mark_moonlight_as_paired d = record d {
  moonlight_pair_requested_at = none;
  moonlight_pair_launch_pending = false;
  state = record d.state {
    moonlight_pair_state = paired;
    moonlight_pair_pin = none;
    last_error = none;
  };
}

unfoldable pub clear_moonlight_pair_state : Daemon → Daemon
clear_moonlight_pair_state d = record d {
  moonlight_pair_requested_at = none;
  moonlight_pair_launch_pending = false;
  state = record d.state { moonlight_pair_pin = none; moonlight_pair_state = unknown };
}

-- `close`: the source, where there is one, is closed.
unfoldable pub close : Daemon → Daemon
close d = if d.has_power_button_source then record d { trace = Call.close_source ∷ d.trace } else d

unfoldable pub set_startup_error : Reason → Daemon → Daemon
unfolding clear_moonlight_pair_state transition close
set_startup_error reason d =
    let d₁ = clear_moonlight_pair_state (record d { startup_error = some reason }) in
    let d₂ = record d₁ {
      power_button_action_started_at = none;
      state = record d₁.state {
        last_error = some reason;
        degraded_reason = some reason;
        power_button_action_in_flight = false;
      };
    } in
    close (transition degraded d₂)

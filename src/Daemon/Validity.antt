-- ===== src/Daemon/Validity.antt =====
-- The well-formedness of the daemon's attributes, and its configuration.
pub mod Failures
pub mod PowerButton
pub mod Pairing
pub mod Session
pub mod Launch
pub mod Tick
pub mod Loop
use relay_inner_display_scri.Base.{ℕ, ◌≤◌, Bool, true, ◌≡◌, is_some}
use relay_inner_display_scri.Config.{AppConfig}
use relay_inner_display_scri.Models.{degraded, is_pending}
use relay_inner_display_scri.Daemon.State.{Daemon}

-- What the daemon relies on in its configuration.
pub record ConfigSound (c : AppConfig) : Type 0 where
  pub delays_ordered : c.policy.reconnect_initial_ms ≤ c.policy.reconnect_max_ms

pub record IsValid (c : AppConfig) (d : Daemon) : Type 0 where
  -- the three attributes of a running console agree
  pub pid_known : is_some d.console_pid ≡ d.console_running
  pub backend_known : is_some d.state.active_console_backend ≡ d.console_running
  -- a reason is held in degraded mode only
  pub reason_degraded : is_some d.state.degraded_reason ≡ true → d.state.session_state ≡ degraded
  -- an action is in flight exactly from its start on, and has a name
  pub action_timed :
      is_some d.power_button_action_started_at ≡ d.state.power_button_action_in_flight
  pub action_named :
      d.state.power_button_action_in_flight ≡ true → is_some d.state.last_power_button_action ≡ true
  -- a PIN and the time of its request are held exactly while it waits for approval
  pub pin_pending : is_some d.state.moonlight_pair_pin ≡ is_pending d.state.moonlight_pair_state
  pub request_pending :
      is_some d.moonlight_pair_requested_at ≡ is_pending d.state.moonlight_pair_state
  pub launch_pending :
      d.moonlight_pair_launch_pending ≡ true → is_pending d.state.moonlight_pair_state ≡ true
  pub pending_configured :
      is_pending d.state.moonlight_pair_state ≡ true → is_some c.console.moonlight ≡ true
  -- the reconnect delay stays between its bounds
  pub delay_low : c.policy.reconnect_initial_ms ≤ d.current_reconnect_delay_ms
  pub delay_high : d.current_reconnect_delay_ms ≤ c.policy.reconnect_max_ms

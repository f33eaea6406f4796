-- ===== src/Daemon/DisplayPolicy.antt =====
-- When the display is put to sleep, and what the session is told of it.
use relay_inner_display_scri.Base.{
  ℕ, ◌+◌, ◌*◌, ◌≤◌, ◌≡◌, true, false, some, [], ◌∷◌, arith, ◌==◌, if◌then◌else◌, eq_iff,
}
use relay_inner_display_scri.Config.{AppConfig}
use relay_inner_display_scri.Message.{display_power}
use relay_inner_display_scri.Daemon.State.{Daemon}
use relay_inner_display_scri.Daemon.Failures.{vm_can_show_console, vm_is_off}
use relay_inner_display_scri.Daemon.Display.{
  counted_since, desired_display_power_intent, update_display_power_intent, display_power_message,
}

module _ (c : AppConfig) (now : ℕ) (d : Daemon) where
  abbrev after : Daemon
  after = (update_display_power_intent c now d).1

  -- If the intent for the display turns from `on` to `off`, and the time off counts from a given
  -- instant, then the VM is off, its state can show no console, and the configured delay since
  -- that instant is over.
  pub sleep_is_due :
      (since : ℕ)
      → d.state.display_power_intent ≡ "on"
      → after.state.display_power_intent ≡ "off"
      → counted_since c d.power_state_since_at d.startup_display_policy_pending d.started_at
        ≡ some since
      → (vm_is_off d.state.vm_power_state ≡ true)
        × (vm_can_show_console d.state.vm_power_state ≡ false)
        × (since + c.policy.dpms_off_delay_ms * 1000 ≤ now)
  unfolding update_display_power_intent desired_display_power_intent
  sleep_is_due since was is e =
      ground (arith, eq_iff "on" "off", eq_iff "on" d.state.display_power_intent)

  -- With a connected session, a change of the intent for the display is sent to it at once, in
  -- one message with the new intent and the configured output; with no change, or no session,
  -- nothing is sent.
  pub update_messages : (update_display_power_intent c now d).0 ≡ (
      if d.session_ready
      then (if after.state.display_power_intent == d.state.display_power_intent
          then []
          else display_power after.state.display_power_intent c.display.output_name ∷ [])
      else [])
  unfolding update_display_power_intent desired_display_power_intent display_power_message
  update_messages = ground (arith, eq_iff d.state.display_power_intent d.state.display_power_intent)

-- ===== src/Daemon/Display.antt =====
-- The display policy: which power the display should have for the VM's state, and when.
use relay_inner_display_scri.Base.{
  ℕ, ◌+◌, ◌*◌, String, Bool, true, false, not, ◌&&◌, Option, none, some, List, [], ◌∷◌, ltb,
  if◌then◌else◌, ◌==◌,
}
use relay_inner_display_scri.Config.{AppConfig}
use relay_inner_display_scri.Message.{Message, display_power}
use relay_inner_display_scri.Daemon.State.{Daemon}
use relay_inner_display_scri.Daemon.Failures.{vm_can_show_console, vm_is_off}

-- `self.state.last_power_button_action == action`
abbrev pub is_text : Option String → String → Bool
is_text none s = false
is_text (some a) s = a == s

abbrev policy_settled : Daemon → Daemon
policy_settled d = record d { startup_display_policy_pending = false }

-- The instant from which the time off counts; at `none` the policy has no opinion.
unfoldable pub counted_since : AppConfig → Option ℕ → Bool → Option ℕ → Option ℕ
counted_since c none pending started = none
counted_since c (some off_since) false started = some off_since
counted_since c (some off_since) true none = none
counted_since c (some off_since) true (some started) =
    let stabilized_at = started + c.policy.power_state_stabilize_ms * 1000 in
    some (if ltb off_since stabilized_at then stabilized_at else off_since)

off_when_due : AppConfig → ℕ → Option ℕ → Daemon → Option String × Daemon
off_when_due c now none d = (none, d)
off_when_due c now (some off_since) d =
    if ltb now (off_since + c.policy.dpms_off_delay_ms * 1000)
    then (none, d)
    else (some "off", policy_settled d)

unfoldable pub desired_display_power_intent : AppConfig → ℕ → Daemon → Option String × Daemon
unfolding off_when_due
desired_display_power_intent c now d =
    if d.state.power_button_action_in_flight && is_text d.state.last_power_button_action "start"
    then (some "on", d)
    else if vm_can_show_console d.state.vm_power_state
    then (some "on", policy_settled d)
    else if not (vm_is_off d.state.vm_power_state)
    then (none, d)
    else off_when_due c now
        (counted_since c d.power_state_since_at d.startup_display_policy_pending d.started_at) d

unfoldable pub display_power_message : AppConfig → String → Message
display_power_message c state = display_power state c.display.output_name

apply_intent : AppConfig → Option String → Daemon → List Message × Daemon
apply_intent c none d = ([], d)
apply_intent c (some target) d = if target == d.state.display_power_intent then ([], d) else (
  (if d.session_ready then display_power_message c target ∷ [] else []),
  record d { state = record d.state { display_power_intent = target } },
)

unfoldable pub update_display_power_intent : AppConfig → ℕ → Daemon → List Message × Daemon
unfolding apply_intent
update_display_power_intent c now d =
    let (target, d') = desired_display_power_intent c now d in apply_intent c target d'

unfoldable pub reapply_display_power : AppConfig → Daemon → List Message
unfolding display_power_message
reapply_display_power c d = display_power_message c d.state.display_power_intent ∷ []

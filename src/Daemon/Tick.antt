-- ===== src/Daemon/Tick.antt =====
-- `tick`: one round of the daemon's poll, from the power button to the launch of the console.
use relay_inner_display_scri.Base.{
  ℕ, String, Bool, true, false, not, ◌&&◌, Option, none, some, List, [], ◌∷◌, ◌++◌, ltb,
  if◌then◌else◌, ◌==◌,
}
use relay_inner_display_scri.Exec.{
  Reason, console_preparation_failed, Exn, runtime_validation_error, vnc_configuration_error,
  vnc_endpoint_unavailable, proxmox_command_error, Exec, pure, raise, gets, method, modify, ◌>>=◌,
  ◌>>◌, try_then,
}
use relay_inner_display_scri.Config.{AppConfig}
use relay_inner_display_scri.Models.{
  SessionState, waiting_for_vm, display_sleeping, showing_console, reconnecting_console,
  requesting_console, is_pending, mark_connect_attempt,
}
use relay_inner_display_scri.Message.{Message, waiting, disconnect_console}
use relay_inner_display_scri.Services.{Services}
use relay_inner_display_scri.Daemon.State.{
  Daemon, transition, persist_state, set_last_error, drop_console,
}
use relay_inner_display_scri.Daemon.Failures.{
  vm_can_show_console, vm_is_off, enter_degraded, record_proxmox_failure, clear_proxmox_failures,
  schedule_reconnect, refresh_vm_status,
}
use relay_inner_display_scri.Daemon.Display.{update_display_power_intent, is_text}
use relay_inner_display_scri.Daemon.PairState.{clear_moonlight_pair_state}
use relay_inner_display_scri.Daemon.PowerButton.{
  poll_power_button_source, refresh_power_button_action,
}
use relay_inner_display_scri.Daemon.Pairing.{handle_moonlight_pairing}
use relay_inner_display_scri.Daemon.Launch.{prepare_console_launch}
use relay_inner_display_scri.Daemon.Session.{is_blocked, then_persist, wait_for_vm}

abbrev already_waiting : SessionState → Bool
already_waiting waiting_for_vm = true
already_waiting display_sleeping = true
already_waiting _ = false

module _ (w : Services) (c : AppConfig) (now : ℕ) where
  -- the VM is off: no console, no reconnect and no pairing is left
  unfoldable pub vm_off : List Message → List Message → Daemon → List Message × Daemon
  vm_off actions display_actions d =
      let stop : List Message =
        if d.console_running then disconnect_console "vm_not_running" ∷ [] else [] in
      let show : List Message =
        if already_waiting d.state.session_state then [] else waiting "vm_stopped" ∷ [] in
      let d₁ = clear_moonlight_pair_state (record d {
        next_reconnect_at = none;
        current_reconnect_delay_ms = c.policy.reconnect_initial_ms;
      }) in
      let d₂ = if d.console_running then drop_console d₁ else d₁ in
      (actions ++ ((stop ++ show) ++ display_actions), persist_state (wait_for_vm d₂))

  -- the VM is neither off nor in a state that shows a console
  unfoldable pub vm_unsettled : Daemon → Daemon
  vm_unsettled d =
      let d₁ = clear_moonlight_pair_state d in
      persist_state (
        if not d₁.console_running && d₁.state.display_power_intent == "on"
        then wait_for_vm d₁
        else d₁)

  unfoldable pub preparation_failed : List Message → String → Reason → Exec Daemon (List Message)
  preparation_failed sent backend reason = do
    stop ← method (enter_degraded (console_preparation_failed backend reason))
    pure (sent ++ stop)

  unfoldable pub unavailable_for_now : Reason → Daemon → Daemon
  unavailable_for_now reason d =
      then_persist reconnecting_console (schedule_reconnect c now (set_last_error (some reason) d))

  unfoldable pub launch_failed : List Message → Exn → Exec Daemon (List Message)
  unfolding preparation_failed unavailable_for_now
  launch_failed sent (vnc_endpoint_unavailable reason) = do
    modify (unavailable_for_now reason)
    pure (sent ++ waiting "reconnecting" ∷ [])
  launch_failed sent (runtime_validation_error reason) =
      preparation_failed sent c.target.console_backend reason
  launch_failed sent (vnc_configuration_error reason) =
      preparation_failed sent c.target.console_backend reason
  launch_failed sent (proxmox_command_error reason) = do
    failure ← method (record_proxmox_failure now reason)
    pure (sent ++ failure)
  launch_failed sent e = raise e

  unfoldable pub launched : Daemon → Daemon
  launched d =
      let d₁ = set_last_error none (clear_proxmox_failures d) in
      then_persist requesting_console
        (record d₁ { next_reconnect_at = none; state = mark_connect_attempt now d₁.state })

  unfoldable pub launch : List Message → Exec Daemon (List Message)
  unfolding launch_failed launched
  launch sent = do
    modify (transition requesting_console)
    try_then (prepare_console_launch w c) (launch_failed sent)
        (λ message. do modify launched; pure (sent ++ message ∷ []))

  unfoldable pub pairing_failed : List Message → String → Exn → Exec Daemon (List Message)
  unfolding preparation_failed
  pairing_failed sent backend (runtime_validation_error reason) =
      preparation_failed sent backend reason
  pairing_failed sent backend e = raise e

  -- one call of `_handle_moonlight_pairing` with what follows it
  unfoldable pub pair_then :
      List Message → String → Exec Daemon (List Message) → Exec Daemon (List Message)
  unfolding pairing_failed
  pair_then sent backend next =
      try_then (handle_moonlight_pairing w c now) (pairing_failed sent backend)
        (λ answer. if answer.0 then (do modify persist_state; pure (sent ++ answer.1)) else next)

  abbrev waits_to_reconnect : Daemon → Bool
  waits_to_reconnect d = elim d.next_reconnect_at [ none ↦ false | some at ↦ ltb now at ]

  -- from the reconnect delay on; `paired` is `pairing_console_ready_to_stream`
  unfoldable pub connect : List Message → Bool → Exec Daemon (List Message)
  connect sent paired = do
    delayed ← gets waits_to_reconnect
    if delayed
        then (do modify (then_persist reconnecting_console); pure sent)
        else if c.target.console_backend == "moonlight" && not paired
        then pair_then sent c.target.console_backend (launch sent)
        else launch sent

  unfoldable pub keep_showing : Daemon → Daemon
  keep_showing d = then_persist showing_console (set_last_error none d)

  unfoldable pub vm_on : List Message → Exec Daemon (List Message)
  unfolding keep_showing
  vm_on sent = do
    running ← gets (λ (d : Daemon). d.console_running)
    pairing_ui ← gets (λ (d : Daemon).
        is_text d.state.active_console_backend "moonlight"
        && is_pending d.state.moonlight_pair_state)
    if not running
        then connect sent false
        else if pairing_ui
        then pair_then sent "moonlight" (connect sent true)
        else do modify keep_showing; pure sent

  unfoldable pub tick_for_vm : List Message → String → List Message → Exec Daemon (List Message)
  tick_for_vm actions vm_status display_actions =
      if vm_is_off vm_status
      then method (vm_off actions display_actions)
      else if not (vm_can_show_console vm_status)
      then (do modify vm_unsettled; pure (actions ++ display_actions))
      else vm_on (actions ++ display_actions)

  unfoldable pub tick_with_status :
      List Message → Option String × List Message → Exec Daemon (List Message)
  tick_with_status actions (none, failure_actions) = pure (actions ++ failure_actions)
  tick_with_status actions (some vm_status, _) = do
    modify (refresh_power_button_action w c now vm_status)
    display_actions ← method (update_display_power_intent c now)
    ready ← gets (λ (d : Daemon). d.session_ready)
    if not ready
        then (do modify persist_state; pure actions)
        else tick_for_vm actions vm_status display_actions

  unfoldable pub tick : Exec Daemon (List Message)
  tick = do
    actions ← poll_power_button_source w c now
    blocked ← gets is_blocked
    if blocked
        then pure actions
        else do answer ← refresh_vm_status w c now; tick_with_status actions answer

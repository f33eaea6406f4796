-- ===== src/Examples/DaemonRuns.antt =====
-- The theorems on the daemon at concrete runs.
use relay_inner_display_scri.Base.{
  ℕ, ◌≤◌, ◌≡◌, ◌⊎◌, refl, true, false, ◌||◌, none, some, List, [], ◌∷◌, ◌++◌, arith, if◌then◌else◌,
  ◌==◌, pos, ◌+◌, ◌*◌, min, ◌^◌, length,
}
use relay_inner_display_scri.Exec.{Reason, text, timeout_expired, Outcome, ok, raised}
use relay_inner_display_scri.Message.{Event, display_power}
use relay_inner_display_scri.Models.{degraded}
use relay_inner_display_scri.Services.{Services}
use relay_inner_display_scri.Daemon.State.{Daemon, new_daemon, persist_state}
use relay_inner_display_scri.Daemon.PowerButton.{
  handle_presses, press_with_status, refresh_power_button_action, within_power_button_debounce,
  is_stopped, is_running,
}
use relay_inner_display_scri.Daemon.Display.{counted_since, update_display_power_intent}
use relay_inner_display_scri.Daemon.Failures.{vm_is_off, vm_can_show_console}
use relay_inner_display_scri.Daemon.Session.{
  handle_session_event, on_display_power_applied, is_degraded,
}
use relay_inner_display_scri.Daemon.Tick.{tick}
use relay_inner_display_scri.Daemon.Loop.{Round, run}
use relay_inner_display_scri.Daemon.Validity.{IsValid}
use relay_inner_display_scri.Daemon.Validity.Loop.{run-IsValid}
use relay_inner_display_scri.Daemon.StateFile.{IsSynced, persist_state-IsSynced}
use relay_inner_display_scri.Daemon.StateFile.Tick.{tick-IsSynced}
use relay_inner_display_scri.Daemon.StateFile.Session.{event-IsSynced}
use relay_inner_display_scri.Daemon.Presses.{commands, press_causes}
use relay_inner_display_scri.Daemon.Presses.Burst.{presses_cause_one}
use relay_inner_display_scri.Daemon.FailureWindow.{fail_each, burst_degrades, few_failures_stay}
use relay_inner_display_scri.Daemon.Backoff.{schedule_each, delay-schedule_each}
use relay_inner_display_scri.Daemon.DisplayPolicy.{sleep_is_due, update_messages}
use relay_inner_display_scri.Daemon.Escapes.{timeout_escapes, applied_undegrades}
use relay_inner_display_scri.Examples.{spice_config, outside, fresh}

abbrev up : Services
up = outside (ok "running")

abbrev two_rounds : List Round
two_rounds =
    record {
      events = (9, Event.session_ready) ∷ [];
      disconnected = false;
      accepts = λ n. true;
      clock = 10;
    }
    ∷ record {
      events =
          (17, Event.console_started (pos 7) none)
          ∷ (18, Event.console_exited (pos 1) (pos 0) none)
          ∷ [];
      disconnected = false;
      accepts = λ n. true;
      clock = 20;
    }
    ∷ []

run-IsValid_example : IsValid spice_config (run up spice_config none 0 two_rounds).1
run-IsValid_example =
    run-IsValid up spice_config none 0 two_rounds (record { delays_ordered = omega arith })

tick-IsSynced_example : IsSynced (tick up spice_config 5 (persist_state fresh)).1
unfolding tick relay_inner_display_scri.Exec.◌>>=◌
    relay_inner_display_scri.Daemon.PowerButton.poll_power_button_source persist_state new_daemon
    relay_inner_display_scri.Daemon.Failures.refresh_vm_status
    relay_inner_display_scri.Exec.try_then relay_inner_display_scri.Daemon.State.call
    relay_inner_display_scri.Daemon.Tick.tick_with_status update_display_power_intent
    relay_inner_display_scri.Daemon.Display.desired_display_power_intent refresh_power_button_action
    relay_inner_display_scri.Daemon.Failures.record_vm_power_state
    relay_inner_display_scri.Daemon.Failures.clear_proxmox_failures
    relay_inner_display_scri.Models.mark_power_state_since vm_can_show_console
tick-IsSynced_example =
    tick-IsSynced up spice_config 5 (persist_state fresh) [] (persist_state-IsSynced fresh) refl

event-IsSynced_example :
    IsSynced (handle_session_event up spice_config 5 (Event.console_started (pos 7) none) fresh).1
unfolding handle_session_event relay_inner_display_scri.Exec.◌>>=◌
event-IsSynced_example =
    event-IsSynced up spice_config 5 (Event.console_started (pos 7) none) fresh [] refl

presses_cause_one_example :
    commands (handle_presses up spice_config 9 3 fresh).1.trace ≤ commands fresh.trace + 1
presses_cause_one_example = presses_cause_one up spice_config 9 3 fresh refl (omega arith)

press_causes_example :
    (commands (press_with_status up spice_config 9 (some "stopped") fresh).1.trace
      ≡ commands fresh.trace)
    ⊎ ((commands (press_with_status up spice_config 9 (some "stopped") fresh).1.trace
          ≡ commands fresh.trace + 1)
        × ((refresh_power_button_action up spice_config 9 "stopped"
              fresh).state.power_button_action_in_flight
            ≡ false)
        × (within_power_button_debounce up spice_config 9 fresh ≡ false)
        × ((is_stopped "stopped" || is_running "stopped") ≡ true))
press_causes_example = press_causes up spice_config 9 "stopped" fresh

burst_degrades_example :
    (fail_each (text "qm") ((1 ∷ 2 ∷ 3 ∷ 4 ∷ []) ++ 60_000_000 ∷ []) fresh).state.session_state
    ≡ degraded
unfolding new_daemon
burst_degrades_example =
    burst_degrades (text "qm") (1 ∷ 2 ∷ 3 ∷ 4 ∷ []) 60_000_000 fresh refl
      ((
        omega arith,
        omega arith,
        (omega arith, omega arith, (omega arith, omega arith, (omega arith, omega arith, tt))),
      ))
      (omega arith)

few_failures_stay_example :
    (fail_each (text "qm") (1 ∷ 2 ∷ 3 ∷ 4 ∷ []) fresh).state.session_state
    ≡ fresh.state.session_state
unfolding new_daemon
few_failures_stay_example = few_failures_stay (text "qm") (1 ∷ 2 ∷ 3 ∷ 4 ∷ []) fresh (omega arith)

abbrev three_times : List ℕ
three_times = 1 ∷ 2 ∷ 3 ∷ []

delay-schedule_each_example :
    (schedule_each spice_config three_times fresh).current_reconnect_delay_ms
    ≡ min
        (fresh.current_reconnect_delay_ms * 2 ^ length three_times)
        spice_config.policy.reconnect_max_ms
unfolding new_daemon
delay-schedule_each_example = delay-schedule_each spice_config three_times fresh (omega arith)

-- a VM that has been off since the time 0, in a daemon whose start is over
abbrev off_for_long : Daemon
off_for_long = record fresh {
  power_state_since_at = some 0;
  startup_display_policy_pending = false;
  session_ready = true;
  state = record fresh.state { vm_power_state = "stopped" };
}

sleep_is_due_example :
    (vm_is_off off_for_long.state.vm_power_state ≡ true)
    × (vm_can_show_console off_for_long.state.vm_power_state ≡ false)
    × (0 + spice_config.policy.dpms_off_delay_ms * 1000 ≤ 5_000_000)
unfolding update_display_power_intent counted_since new_daemon
    relay_inner_display_scri.Daemon.Display.desired_display_power_intent vm_can_show_console
    vm_is_off
sleep_is_due_example = sleep_is_due spice_config 5_000_000 off_for_long 0 refl refl refl

update_messages_example : (update_display_power_intent spice_config 5_000_000 off_for_long).0 ≡ (
    if off_for_long.session_ready
    then (if (update_display_power_intent spice_config 5_000_000
            off_for_long).1.state.display_power_intent
          == off_for_long.state.display_power_intent
        then []
        else display_power
            (update_display_power_intent spice_config 5_000_000
              off_for_long).1.state.display_power_intent
            spice_config.display.output_name
          ∷ [])
    else [])
update_messages_example = update_messages spice_config 5_000_000 off_for_long

timeout_escapes_example :
    (tick (outside (raised (timeout_expired (text "qm status")))) spice_config 5 fresh).0
    ≡ raised (timeout_expired (text "qm status"))
unfolding new_daemon
timeout_escapes_example =
    timeout_escapes (outside (raised (timeout_expired (text "qm status")))) spice_config 5
      (text "qm status") fresh refl refl refl

abbrev degraded_daemon : Daemon
degraded_daemon = record fresh {
  state = record fresh.state {
    session_state = degraded;
    degraded_reason = some (text "Proxmox");
    vm_power_state = "stopped";
  };
}

applied_undegrades_example :
    (is_degraded (on_display_power_applied up spice_config "on" degraded_daemon).state.session_state
      ≡ false)
    × ((on_display_power_applied up spice_config "on" degraded_daemon).state.degraded_reason ≡ none)
unfolding vm_can_show_console new_daemon
applied_undegrades_example = applied_undegrades up spice_config "on" degraded_daemon refl refl

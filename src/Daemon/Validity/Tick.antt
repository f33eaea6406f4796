-- ===== src/Daemon/Validity/Tick.antt =====
-- Validity through a tick.
use relay_inner_display_scri.Base.{ℕ, String, Bool, Option, none, some, List, arith}
use relay_inner_display_scri.Exec.{
  Reason, Exn, runtime_validation_error, vnc_configuration_error, vnc_endpoint_unavailable,
  proxmox_command_error, Exec,
}
use relay_inner_display_scri.Exec.Keeps.{Keeps, keeps_rules}
use relay_inner_display_scri.Config.{AppConfig}
use relay_inner_display_scri.Models.{mark_connect_attempt}
use relay_inner_display_scri.Message.{Message}
use relay_inner_display_scri.Services.{Services}
use relay_inner_display_scri.Daemon.State.{
  Daemon, transition, persist_state, set_last_error, drop_console,
}
use relay_inner_display_scri.Daemon.Failures.{clear_proxmox_failures}
use relay_inner_display_scri.Daemon.PairState.{clear_moonlight_pair_state}
use relay_inner_display_scri.Daemon.Tick.{
  vm_off, vm_unsettled, preparation_failed, unavailable_for_now, launch_failed, launched, launch,
  pairing_failed, pair_then, connect, keep_showing, vm_on, tick_for_vm, tick_with_status, tick,
}
use relay_inner_display_scri.Daemon.Validity.{IsValid}
use relay_inner_display_scri.Daemon.Validity.Failures.{
  transition-IsValid, persist_state-IsValid, set_last_error-IsValid, enter_degraded-IsValid,
  record_proxmox_failure-IsValid, schedule_reconnect-IsValid, refresh_vm_status-IsValid,
  update_display_power_intent-IsValid,
}
use relay_inner_display_scri.Daemon.Validity.PowerButton.{
  refresh_power_button_action-IsValid, poll_power_button_source-IsValid,
}
use relay_inner_display_scri.Daemon.Validity.Pairing.{handle_moonlight_pairing-IsValid}
use relay_inner_display_scri.Daemon.Validity.Session.{then_persist-IsValid}
use relay_inner_display_scri.Daemon.Validity.Launch.{prepare_console_launch-IsValid}

module _ {c : AppConfig} (w : Services) (now : ℕ) where
  vm_off-IsValid :
      (a b : List Message) (d : Daemon) → IsValid c d → IsValid c (vm_off w c now a b d).1
  unfolding vm_off clear_moonlight_pair_state drop_console transition persist_state
  vm_off-IsValid a b d v = ground arith

  vm_unsettled-IsValid : (d : Daemon) → IsValid c d → IsValid c (vm_unsettled w c now d)
  unfolding vm_unsettled clear_moonlight_pair_state transition persist_state
  vm_unsettled-IsValid d v = ground arith

  preparation_failed-IsValid :
      (sent : List Message) (b : String) (r : Reason)
      → Keeps (IsValid c) (preparation_failed w c now sent b r)
  unfolding preparation_failed
  preparation_failed-IsValid sent b r = search (keeps_rules, enter_degraded-IsValid)

  unavailable-IsValid :
      (r : Reason) (d : Daemon) → IsValid c d → IsValid c (unavailable_for_now w c now r d)
  unfolding unavailable_for_now
  unavailable-IsValid r d v =
      then_persist-IsValid _ _
        (schedule_reconnect-IsValid now _ (set_last_error-IsValid (some r) d v))

  launch_failed-IsValid :
      (sent : List Message) (e : Exn) → Keeps (IsValid c) (launch_failed w c now sent e)
  unfolding launch_failed
  launch_failed-IsValid sent (vnc_endpoint_unavailable r) =
      search (keeps_rules, unavailable-IsValid)
  launch_failed-IsValid sent (runtime_validation_error r) = preparation_failed-IsValid _ _ _
  launch_failed-IsValid sent (vnc_configuration_error r) = preparation_failed-IsValid _ _ _
  launch_failed-IsValid sent (proxmox_command_error r) =
      search (keeps_rules, record_proxmox_failure-IsValid)
  launch_failed-IsValid sent _ = search keeps_rules

  launched-IsValid : (d : Daemon) → IsValid c d → IsValid c (launched w c now d)
  unfolding launched clear_proxmox_failures set_last_error transition persist_state
      mark_connect_attempt
  launched-IsValid d v = ground arith

  launch-IsValid : (sent : List Message) → Keeps (IsValid c) (launch w c now sent)
  unfolding launch
  launch-IsValid sent =
      search
        (
          keeps_rules, transition-IsValid, prepare_console_launch-IsValid, launch_failed-IsValid,
          launched-IsValid,
        )
        depth 8

  pairing_failed-IsValid :
      (sent : List Message) (b : String) (e : Exn)
      → Keeps (IsValid c) (pairing_failed w c now sent b e)
  unfolding pairing_failed
  pairing_failed-IsValid sent b (runtime_validation_error r) = preparation_failed-IsValid _ _ _
  pairing_failed-IsValid sent b _ = search keeps_rules

  pair_then-IsValid :
      (sent : List Message) (b : String) (next : Exec Daemon (List Message))
      → Keeps (IsValid c) next
      → Keeps (IsValid c) (pair_then w c now sent b next)
  unfolding pair_then
  pair_then-IsValid sent b next kept =
      search
        (
          keeps_rules, handle_moonlight_pairing-IsValid, pairing_failed-IsValid,
          persist_state-IsValid,
        )
        depth 8

  connect-IsValid : (sent : List Message) (p : Bool) → Keeps (IsValid c) (connect w c now sent p)
  unfolding connect
  connect-IsValid sent p =
      search (keeps_rules, then_persist-IsValid, pair_then-IsValid, launch-IsValid) depth 9

  keep_showing-IsValid : (d : Daemon) → IsValid c d → IsValid c (keep_showing w c now d)
  unfolding keep_showing
  keep_showing-IsValid d v = then_persist-IsValid _ _ (set_last_error-IsValid none d v)

  vm_on-IsValid : (sent : List Message) → Keeps (IsValid c) (vm_on w c now sent)
  unfolding vm_on
  vm_on-IsValid sent =
      search (keeps_rules, connect-IsValid, pair_then-IsValid, keep_showing-IsValid) depth 10

  tick_for_vm-IsValid :
      (a : List Message) (s : String) (b : List Message)
      → Keeps (IsValid c) (tick_for_vm w c now a s b)
  unfolding tick_for_vm
  tick_for_vm-IsValid a s b =
      search (keeps_rules, vm_off-IsValid, vm_unsettled-IsValid, vm_on-IsValid) depth 8

  tick_with_status-IsValid :
      (a : List Message) (s : Option String × List Message)
      → Keeps (IsValid c) (tick_with_status w c now a s)
  unfolding tick_with_status
  tick_with_status-IsValid a (none, f) = search keeps_rules
  tick_with_status-IsValid a (some s, f) =
      search
        (
          keeps_rules, refresh_power_button_action-IsValid, update_display_power_intent-IsValid,
          persist_state-IsValid, tick_for_vm-IsValid,
        )
        depth 9

  pub tick-IsValid : Keeps (IsValid c) (tick w c now)
  unfolding tick
  tick-IsValid =
      search
        (
          keeps_rules, poll_power_button_source-IsValid, refresh_vm_status-IsValid,
          tick_with_status-IsValid,
        )
        depth 9

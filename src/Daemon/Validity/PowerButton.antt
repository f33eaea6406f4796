-- ===== src/Daemon/Validity/PowerButton.antt =====
-- Validity through the power button.
use relay_inner_display_scri.Base.{ℕ, zero, suc, String, Option, none, some, arith, ◌≡◌, false}
use relay_inner_display_scri.Exec.{
  Reason, Outcome, Exn, proxmox_command_error, os_error, power_button_error, Exec, ◌>>=◌,
}
use relay_inner_display_scri.Exec.Keeps.{
  Keeps, keeps_rules, Leads, Leads-try, Leads-modify, Leads-if, Leads-raise, Keeps-bind, Keeps-pure,
  Keeps-raise, Keeps-modify,
}
use relay_inner_display_scri.Config.{AppConfig}
use relay_inner_display_scri.Models.{mark_power_button_press}
use relay_inner_display_scri.Services.{Services, Call, Trace}
use relay_inner_display_scri.Daemon.State.{Daemon, persist_state, call}
use relay_inner_display_scri.Daemon.Failures.{refresh_vm_status}
use relay_inner_display_scri.Daemon.PairState.{set_startup_error}
use relay_inner_display_scri.Daemon.PowerButton.{
  refresh_power_button_action, press_failed, press_submitted, act_on_press, press_with_status,
  handle_power_button_press, handle_presses, poll_power_button_source, button_result,
  command_failed, is_stopped, is_running, submit, ignore, read_failed, poll_failed,
}
use relay_inner_display_scri.Daemon.Validity.{IsValid}
use relay_inner_display_scri.Daemon.Validity.Failures.{
  persist_state-IsValid, call-IsValid, refresh_vm_status-IsValid,
}

module _ {c : AppConfig} where
  pub set_startup_error-IsValid :
      (r : Reason) (d : Daemon) → IsValid c d → IsValid c (set_startup_error r d)
  unfolding set_startup_error
  set_startup_error-IsValid r d v = ground arith

  button_result-IsValid :
      (r : String) (d : Daemon) → IsValid c d → IsValid c (persist_state (button_result r d))
  unfolding persist_state
  button_result-IsValid r d v = ground arith

  pub refresh_power_button_action-IsValid :
      (w : Services) (now : ℕ) (s : String) (d : Daemon)
      → IsValid c d
      → IsValid c (refresh_power_button_action w c now s d)
  unfolding refresh_power_button_action
  refresh_power_button_action-IsValid w now s d v = ground arith

-- nothing is in flight
abbrev IsIdle : AppConfig → Daemon → Type 0
IsIdle c d = IsValid c d × (d.state.power_button_action_in_flight ≡ false)

module _ {c : AppConfig} where
  press_failed-IsValid :
      (now : ℕ) (action : String) (r : Reason) (d : Daemon)
      → IsIdle c d
      → IsValid c (press_failed now action r d)
  unfolding press_failed mark_power_button_press
  press_failed-IsValid now action r d p = ground arith

  press_submitted-IsValid :
      (now : ℕ) (action : String) (d : Daemon)
      → IsIdle c d
      → IsValid c (press_submitted now action d)
  unfolding press_submitted mark_power_button_press
  press_submitted-IsValid now action d p = ground arith

  call-IsIdle :
      {A : Type 0} (k : Call) (answer : Trace → Outcome A)
      → Leads (IsIdle c) (IsIdle c) (call k answer)
  unfolding call
  call-IsIdle k answer = record { at = λ s p. ((call-IsValid k answer).at s p.0, p.1) }

  command_failed-IsValid :
      (w : Services) (now : ℕ) (action : String) (e : Exn)
      → Leads (IsIdle c) (IsValid c) (command_failed w c now action e)
  unfolding command_failed
  command_failed-IsValid w now action (proxmox_command_error r) =
      Leads-modify _ (press_failed-IsValid now action r)
  command_failed-IsValid w now action e = Leads-raise e (λ d p. p.0)

module _ {c : AppConfig} (w : Services) (now : ℕ) where
  submit-IsValid :
      (action : String) (m : Exec Daemon Unit)
      → Leads (IsIdle c) (IsIdle c) m
      → Leads (IsIdle c) (IsValid c) (submit w c now action m)
  unfolding submit
  submit-IsValid action m idle =
      Leads-try m _ _ idle (command_failed-IsValid w now action)
        (λ _. Leads-modify _ (press_submitted-IsValid now action))

  ignore-IsValid : (r : String) → Keeps (IsValid c) (ignore w c now r)
  unfolding ignore
  ignore-IsValid r = Keeps-modify _ (button_result-IsValid r)

  act_on_press-IsValid : (s : String) → Leads (IsIdle c) (IsValid c) (act_on_press w c now s)
  unfolding act_on_press
  act_on_press-IsValid s = Leads-if (is_stopped s) _ _ (submit-IsValid _ _ (call-IsIdle _ _)) (
      Leads-if (is_running s) _ _ (submit-IsValid _ _ (call-IsIdle _ _))
        (Leads-modify _ (λ d p. button_result-IsValid "ignored_non_actionable" d p.0)))

  press_with_status-IsValid : (s : Option String) → Keeps (IsValid c) (press_with_status w c now s)
  unfolding press_with_status ◌>>=◌
  press_with_status-IsValid none = ignore-IsValid "status_failed"
  press_with_status-IsValid (some s) = record {
    at = λ d v. ground (
      arith,
      refresh_power_button_action-IsValid w now s d v,
      (ignore-IsValid "ignored_in_flight").at (refresh_power_button_action w c now s d),
      (ignore-IsValid "ignored_debounced").at (refresh_power_button_action w c now s d),
      (act_on_press-IsValid s).at (refresh_power_button_action w c now s d),
    );
  }

  pub handle_power_button_press-IsValid : Keeps (IsValid c) (handle_power_button_press w c now)
  unfolding handle_power_button_press
  handle_power_button_press-IsValid =
      Keeps-bind (refresh_vm_status w c now) _ (refresh_vm_status-IsValid w now)
        (λ a. press_with_status-IsValid a.0)

  handle_presses-IsValid : (n : ℕ) → Keeps (IsValid c) (handle_presses w c now n)
  unfolding handle_presses
  handle_presses-IsValid zero = Keeps-pure tt
  handle_presses-IsValid (suc n) =
      Keeps-bind _ _ handle_power_button_press-IsValid (λ _. handle_presses-IsValid n)

  read_failed-IsValid : (r : Reason) → Keeps (IsValid c) (read_failed w c now r)
  unfolding read_failed
  read_failed-IsValid r =
      Keeps-modify _ (λ d v. persist_state-IsValid _ (set_startup_error-IsValid _ d v))

  poll_failed-IsValid : (e : Exn) → Keeps (IsValid c) (poll_failed w c now e)
  unfolding poll_failed
  poll_failed-IsValid (os_error r) = read_failed-IsValid r
  poll_failed-IsValid (power_button_error r) = read_failed-IsValid r
  poll_failed-IsValid e = Keeps-raise e

  pub poll_power_button_source-IsValid : Keeps (IsValid c) (poll_power_button_source w c now)
  unfolding poll_power_button_source
  poll_power_button_source-IsValid =
      search (keeps_rules, call-IsValid, poll_failed-IsValid, handle_presses-IsValid)

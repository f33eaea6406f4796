-- ===== src/Daemon/StateFile/PowerButton.antt =====
-- The state file after the power button.
use relay_inner_display_scri.Base.{ℕ, zero, suc, refl, not, ◌||◌, Option, none, some, String}
use relay_inner_display_scri.Exec.{
  Reason, Exn, proxmox_command_error, os_error, power_button_error, Exec,
}
use relay_inner_display_scri.Exec.Ends.{
  Ends, Ends-pure, Ends-raise, Ends-gets, Ends-if, Ends-modify, Ends-bind, Ends-try,
}
use relay_inner_display_scri.Config.{AppConfig}
use relay_inner_display_scri.Services.{Services}
use relay_inner_display_scri.Daemon.State.{Daemon, persist_state}
use relay_inner_display_scri.Daemon.PowerButton.{
  is_stopped, is_running, press_failed, press_submitted, command_failed, submit, act_on_press,
  press_with_status, handle_power_button_press, handle_presses, read_failed, poll_failed,
  poll_power_button_source,
}
use relay_inner_display_scri.Daemon.StateFile.{
  IsSynced, Any, Now, Then, persist_state-IsSynced, Any-call, IsSynced-call, ignore-Ends,
}

module _ (w : Services) (c : AppConfig) (now : ℕ) where
  press_failed-IsSynced : (a : String) (r : Reason) (d : Daemon) → IsSynced (press_failed now a r d)
  unfolding press_failed persist_state
  press_failed-IsSynced a r d = record { written = refl; ready_written = refl }

  press_submitted-IsSynced : (a : String) (d : Daemon) → IsSynced (press_submitted now a d)
  unfolding press_submitted persist_state
  press_submitted-IsSynced a d = record { written = refl; ready_written = refl }

  command_failed-Ends : (a : String) (e : Exn) → Ends Any Now (command_failed w c now a e)
  unfolding command_failed
  command_failed-Ends a (proxmox_command_error r) =
      Ends-modify (press_failed now a r) (λ d _. press_failed-IsSynced a r d)
  command_failed-Ends a _ = Ends-raise _

  submit-Ends :
      (a : String) (m : Exec Daemon Unit) → Ends Any Then m → Ends Any Now (submit w c now a m)
  unfolding submit
  submit-Ends a m e =
      Ends-try Any _ _ _ (λ d _. tt) e (command_failed-Ends a)
        (λ _. Ends-modify (press_submitted now a) (λ d _. press_submitted-IsSynced a d))

  act-Ends : (s : String) → Ends Any Now (act_on_press w c now s)
  unfolding act_on_press
  act-Ends s =
      Ends-if (is_stopped s) _ _ (λ _. submit-Ends _ _ (Any-call w c now _ _))
        (λ _.
          Ends-if (is_running s) _ _ (λ _. submit-Ends _ _ (Any-call w c now _ _))
            (λ _. ignore-Ends w c now _))

  press-Ends : (s : Option String) → Ends Any Now (press_with_status w c now s)
  unfolding press_with_status
  press-Ends none = ignore-Ends w c now _
  press-Ends (some s) = Ends-bind {R = Then} _ _ (Ends-modify _ (λ d _. tt)) (λ _.
      Ends-bind {R = Then} _ _ (Ends-gets _ (λ d _. tt)) (λ busy.
        Ends-bind {R = Then} _ _ (Ends-gets _ (λ d _. tt)) (λ early.
          Ends-if busy _ _ (λ _. ignore-Ends w c now _)
            (λ _. Ends-if early _ _ (λ _. ignore-Ends w c now _) (λ _. act-Ends s)))))

  handle-Ends : Ends Any Now (handle_power_button_press w c now)
  unfolding handle_power_button_press
  handle-Ends = Ends-bind {R = Then} _ _ (record { at = λ d _ a e. tt }) (λ a. press-Ends a.0)

  presses-Ends : (n : ℕ) → Ends IsSynced Now (handle_presses w c now n)
  unfolding handle_presses
  presses-Ends zero = Ends-pure _ (λ d s. s)
  presses-Ends (suc n) =
      Ends-bind _ _ (record { at = λ d _. handle-Ends.at d tt }) (λ _. presses-Ends n)

  read_failed-Ends : (r : Reason) → Ends Any Now (read_failed w c now r)
  unfolding read_failed
  read_failed-Ends r = Ends-modify _ (λ d _. persist_state-IsSynced _)

  poll_failed-Ends : (e : Exn) → Ends Any Now (poll_failed w c now e)
  unfolding poll_failed
  poll_failed-Ends (os_error r) = read_failed-Ends r
  poll_failed-Ends (power_button_error r) = read_failed-Ends r
  poll_failed-Ends _ = Ends-raise _

  pub poll-Ends : Ends IsSynced Now (poll_power_button_source w c now)
  unfolding poll_power_button_source
  poll-Ends = Ends-bind {R = Now} _ _ (Ends-gets _ (λ d s. s)) (λ idle.
      Ends-if (not c.input.forward_power_button || idle) _ _ (λ _. Ends-pure _ (λ d s. s))
        (λ _.
          Ends-bind {R = Now} _ _
            (Ends-try {R = Now} Any _ _ _ (λ d _. tt)
              (record { at = λ d s a e. IsSynced-call w c now _ _ d s }) poll_failed-Ends
              presses-Ends)
            (λ _. Ends-pure _ (λ d s. s))))

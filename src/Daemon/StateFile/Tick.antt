-- ===== src/Daemon/StateFile/Tick.antt =====
-- The state file after a tick.
use relay_inner_display_scri.Base.{
  ◌≡◌, ℕ, refl, not, ◌&&◌, ◌==◌, ◌++◌, Bool, true, false, Option, none, some, List, String,
}
use relay_inner_display_scri.Exec.{
  Reason, Exn, proxmox_command_error, runtime_validation_error, vnc_configuration_error,
  vnc_endpoint_unavailable, Exec, ok,
}
use relay_inner_display_scri.Exec.Ends.{
  Ends, Ends-pure, Ends-raise, Ends-gets, Ends-method, Ends-if, Ends-modify, Ends-bind, Ends-try,
}
use relay_inner_display_scri.Config.{AppConfig}
use relay_inner_display_scri.Message.{Message}
use relay_inner_display_scri.Services.{Services}
use relay_inner_display_scri.Daemon.State.{Daemon, persist_state}
use relay_inner_display_scri.Daemon.Failures.{vm_is_off, vm_can_show_console}
use relay_inner_display_scri.Daemon.Tick.{
  vm_off, vm_unsettled, preparation_failed, unavailable_for_now, launch_failed, launched, launch,
  pairing_failed, pair_then, connect, keep_showing, vm_on, tick_for_vm, tick_with_status, tick,
}
use relay_inner_display_scri.Daemon.StateFile.{
  IsSynced, Any, Now, Then, FailureWritten, persist_state-IsSynced, enter_degraded-IsSynced,
  failure-IsSynced, refresh-Ends,
}
use relay_inner_display_scri.Daemon.StateFile.PowerButton.{poll-Ends}

module _ (w : Services) (c : AppConfig) (now : ℕ) where
  preparation_failed-Ends :
      (sent : List Message) (b : String) (r : Reason)
      → Ends Any Now (preparation_failed w c now sent b r)
  unfolding preparation_failed
  preparation_failed-Ends sent b r =
      Ends-bind {R = Now} _ _ (Ends-method _ (λ d _. enter_degraded-IsSynced _ d))
        (λ _. Ends-pure _ (λ d s. s))

  launch_failed-Ends : (sent : List Message) (e : Exn) → Ends Any Now (launch_failed w c now sent e)
  unfolding launch_failed unavailable_for_now
  launch_failed-Ends sent (vnc_endpoint_unavailable r) =
      Ends-bind {R = Now} _ _ (Ends-modify _ (λ d _. persist_state-IsSynced _))
        (λ _. Ends-pure _ (λ d s. s))
  launch_failed-Ends sent (runtime_validation_error r) = preparation_failed-Ends _ _ _
  launch_failed-Ends sent (vnc_configuration_error r) = preparation_failed-Ends _ _ _
  launch_failed-Ends sent (proxmox_command_error r) =
      Ends-bind {R = Now} _ _ (Ends-method _ (λ d _. failure-IsSynced now r d))
        (λ _. Ends-pure _ (λ d s. s))
  launch_failed-Ends sent _ = Ends-raise _

  launch-Ends : (sent : List Message) → Ends Any Now (launch w c now sent)
  unfolding launch launched
  launch-Ends sent = Ends-bind {R = Then} _ _ (Ends-modify _ (λ d _. tt)) (λ _.
      Ends-try {R = Then} Any _ _ _ (λ d _. tt) (record { at = λ d _ a e. tt })
        (launch_failed-Ends sent)
        (λ message.
          Ends-bind {R = Now} _ _ (Ends-modify _ (λ d _. persist_state-IsSynced _))
            (λ _. Ends-pure _ (λ d s. s))))

  pairing_failed-Ends :
      (sent : List Message) (b : String) (e : Exn) → Ends Any Now (pairing_failed w c now sent b e)
  unfolding pairing_failed
  pairing_failed-Ends sent b (runtime_validation_error r) = preparation_failed-Ends _ _ _
  pairing_failed-Ends sent b _ = Ends-raise _

  pair_then-Ends :
      (sent : List Message) (b : String) (next : Exec Daemon (List Message))
      → Ends Any Now next
      → Ends Any Now (pair_then w c now sent b next)
  unfolding pair_then
  pair_then-Ends sent b next e =
      Ends-try {R = Then} Any _ _ _ (λ d _. tt) (record { at = λ d _ a e. tt })
        (pairing_failed-Ends sent b)
        (λ answer.
          Ends-if answer.0 _ _
            (λ _.
              Ends-bind {R = Now} _ _ (Ends-modify _ (λ d _. persist_state-IsSynced _))
                (λ _. Ends-pure _ (λ d s. s)))
            (λ _. e))

  connect-Ends : (sent : List Message) (p : Bool) → Ends Any Now (connect w c now sent p)
  unfolding connect
  connect-Ends sent p = Ends-bind {R = Then} _ _ (Ends-gets _ (λ d _. tt)) (λ delayed.
      Ends-if delayed _ _
        (λ _.
          Ends-bind {R = Now} _ _ (Ends-modify _ (λ d _. persist_state-IsSynced _))
            (λ _. Ends-pure _ (λ d s. s)))
        (λ _.
          Ends-if (c.target.console_backend == "moonlight" && not p) _ _
            (λ _.
              pair_then-Ends sent c.target.console_backend (launch w c now sent) (launch-Ends sent))
            (λ _. launch-Ends sent)))

  vm_on-Ends : (sent : List Message) → Ends Any Now (vm_on w c now sent)
  unfolding vm_on keep_showing
  vm_on-Ends sent = Ends-bind {R = Then} _ _ (Ends-gets _ (λ d _. tt)) (λ running.
      Ends-bind {R = Then} _ _ (Ends-gets _ (λ d _. tt)) (λ pairing_ui.
        Ends-if (not running) _ _ (λ _. connect-Ends sent false)
          (λ _.
            Ends-if pairing_ui _ _
              (λ _.
                pair_then-Ends sent "moonlight" (connect w c now sent true)
                  (connect-Ends sent true))
              (λ _.
                Ends-bind {R = Now} _ _ (Ends-modify _ (λ d _. persist_state-IsSynced _))
                  (λ _. Ends-pure _ (λ d s. s))))))

  vm_off-IsSynced : (a b : List Message) (d : Daemon) → IsSynced (vm_off w c now a b d).1
  unfolding vm_off persist_state
  vm_off-IsSynced a b d = record { written = refl; ready_written = refl }

  vm_unsettled-IsSynced : (d : Daemon) → IsSynced (vm_unsettled w c now d)
  unfolding vm_unsettled persist_state
  vm_unsettled-IsSynced d = record { written = refl; ready_written = refl }

  for_vm-Ends :
      (a : List Message) (s : String) (b : List Message) → Ends Any Now (tick_for_vm w c now a s b)
  unfolding tick_for_vm
  for_vm-Ends a s b =
      Ends-if (vm_is_off s) _ _
        (λ _. Ends-method (vm_off w c now a b) (λ d _. vm_off-IsSynced a b d))
        (λ _.
          Ends-if (not (vm_can_show_console s)) _ _
            (λ _.
              Ends-bind {R = Now} _ _
                (Ends-modify (vm_unsettled w c now) (λ d _. vm_unsettled-IsSynced d))
                (λ _. Ends-pure _ (λ d s. s)))
            (λ _. vm_on-Ends (a ++ b)))

  with_status-Ends :
      (a : List Message) (s : Option String × List Message)
      → Ends (FailureWritten s) Now (tick_with_status w c now a s)
  unfolding tick_with_status
  with_status-Ends a (none, f) = Ends-pure _ (λ d s. s)
  with_status-Ends a (some s, f) = Ends-bind {R = Then} _ _ (Ends-modify _ (λ d _. tt)) (λ _.
      Ends-bind {R = Then} _ _ (Ends-method _ (λ d _. tt)) (λ display.
        Ends-bind {R = Then} _ _ (Ends-gets _ (λ d _. tt)) (λ ready.
          Ends-if (not ready) _ _
            (λ _.
              Ends-bind {R = Now} _ _ (Ends-modify _ (λ d _. persist_state-IsSynced _))
                (λ _. Ends-pure _ (λ d s. s)))
            (λ _. for_vm-Ends a s display))))

  -- The postcondition of a tick.
  pub tick-Ends : Ends IsSynced Now (tick w c now)
  unfolding tick
  tick-Ends = Ends-bind {R = Now} _ _ (poll-Ends w c now) (λ actions.
      Ends-bind {R = Now} _ _ (Ends-gets _ (λ d s. s)) (λ blocked.
        Ends-if blocked _ _ (λ _. Ends-pure _ (λ d s. s))
          (λ _.
            Ends-bind _ _ (record { at = λ d _. (refresh-Ends w c now).at d tt })
              (with_status-Ends actions))))

-- A tick that returns, from a daemon whose state file holds the state in memory, leaves the
-- state file with the state in memory, whatever the answers of the services.
pub tick-IsSynced :
    (w : Services) (c : AppConfig) (now : ℕ) (d : Daemon) (sent : List Message)
    → IsSynced d
    → (tick w c now d).0 ≡ ok sent
    → IsSynced (tick w c now d).1
tick-IsSynced w c now d sent synced returns = (tick-Ends w c now).at d synced sent returns

-- ===== src/Daemon/Presses/Burst.antt =====
-- The commands caused by all the presses that one poll reads.
use relay_inner_display_scri.Base.{
  ℕ, zero, suc, ◌+◌, ◌≤◌, ◌<◌, ◌≡◌, refl, ap, ◌⊎◌, inl, inr, Bool, true, false, Option, none, some,
  [], ◌∷◌, arith, String, Bool-cases, if◌then◌else◌,
}
use relay_inner_display_scri.Exec.{
  Outcome, ok, raised, proxmox_command_error, Exec, ◌>>=◌, try_then, continue, handled, modify,
  raise, Reason,
}
use relay_inner_display_scri.Config.{AppConfig}
use relay_inner_display_scri.Services.{Call, Trace, Services}
use relay_inner_display_scri.Daemon.State.{Daemon, persist_state, call}
use relay_inner_display_scri.Daemon.Failures.{
  refresh_vm_status, status_failed, status_read, record_proxmox_failure, enter_degraded,
  record_vm_power_state, clear_proxmox_failures,
}
use relay_inner_display_scri.Daemon.PowerButton.{
  is_running, is_stopped, refresh_power_button_action, within_power_button_debounce, act_on_press,
  press_with_status, handle_power_button_press, handle_presses, press_failed, press_submitted,
  command_failed, submit, ignore,
}
use relay_inner_display_scri.Daemon.Presses.{
  commands, refresh-trace, refresh-accepted, count_command, submit-commands,
}

-- At most one command so far, and if one, it has just been accepted.
abbrev OneAt : ℕ → ℕ → Daemon → Type 0
OneAt now k d =
    (commands d.trace ≡ k)
    ⊎ ((commands d.trace ≡ k + 1) × (d.last_power_button_accepted_at ≡ some now))

-- the same through the end of an action: the second part holds where it goes on
record Capped {A : Type 0} (now k : ℕ) (r : Outcome A × Daemon) : Type 0 where
  bound : commands r.1.trace ≤ k + 1
  goes_on : (a : A) → r.0 ≡ ok a → OneAt now k r.1

module _ (w : Services) (c : AppConfig) (now : ℕ) where
  failure_kept :
      (r : Reason) (d : Daemon)
      → ((record_proxmox_failure now r d).1.trace ≡ d.trace)
        × ((record_proxmox_failure now r d).1.last_power_button_accepted_at
            ≡ d.last_power_button_accepted_at)
  unfolding record_proxmox_failure enter_degraded
  failure_kept r d = ground arith

  read_kept :
      (s : String) (d : Daemon)
      → ((record_vm_power_state s now d).trace ≡ d.trace)
        × ((record_vm_power_state s now d).last_power_button_accepted_at
            ≡ d.last_power_button_accepted_at)
  unfolding record_vm_power_state
  read_kept s d = ground arith

  Same : {A : Type 0} → Daemon → Outcome A × Daemon → Type 0
  Same d r =
      (commands r.1.trace ≡ commands d.trace)
      × (r.1.last_power_button_accepted_at ≡ d.last_power_button_accepted_at)

  status-Same :
      (r : Outcome String) (d : Daemon)
      → Same d (handled r (status_failed w c now) (status_read w c now) d)
  unfolding Same status_failed status_read ◌>>=◌ clear_proxmox_failures
  status-Same (ok s) d =
      let kept = read_kept s (record d { proxmox_failure_timestamps = [] }) in
      (ap commands kept.0, kept.1)
  status-Same (raised (proxmox_command_error r)) d =
      let kept = failure_kept r d in (ap commands kept.0, kept.1)
  status-Same (raised _) d = (refl, refl)

  refresh-Same : (d : Daemon) → Same d (refresh_vm_status w c now d)
  unfolding Same refresh_vm_status try_then call commands
  refresh-Same d =
      status-Same (w.get_vm_status d.trace c.target.vmid)
        (record d { trace = Call.get_vm_status c.target.vmid ∷ d.trace })

  module _ (zero_ms : w.truncated_ms 0 ≡ 0) (debounced : 0 < c.input.debounce_ms) (k : ℕ) where
    -- a press right after an accepted one is within the debounce time
    just_accepted :
        (d : Daemon)
        → d.last_power_button_accepted_at ≡ some now
        → within_power_button_debounce w c now d ≡ true
    unfolding within_power_button_debounce
    just_accepted d e = rw e (ground arith)

    abbrev finished : String → Outcome (Unit {0}) → Daemon → Outcome (Unit {0}) × Daemon
    finished action r d =
        handled r (command_failed w c now action) (λ _. modify (press_submitted now action)) d

    accepted_on_ok :
        (action : String) (r : Outcome Unit) (d : Daemon) (a : Unit {0})
        → (finished action r d).0 ≡ ok a
        → (finished action r d).1.last_power_button_accepted_at ≡ some now
    unfolding command_failed press_failed press_submitted modify raise
    accepted_on_ok action (ok _) d a e = refl
    accepted_on_ok action (raised (proxmox_command_error r)) d a e = refl
    accepted_on_ok action (raised _) d a e = cc

    submit-Capped :
        (action : String) (q : Call) (answer : Trace → Outcome Unit) (d : Daemon)
        → commands d.trace ≡ k
        → count_command q (commands d.trace) ≡ suc (commands d.trace)
        → Capped now k (submit w c now action (call q answer) d)
    unfolding submit try_then call
    submit-Capped action q answer d e counted =
        let after = submit-commands w c now action q answer d in
        record {
          bound = omega (arith, after);
          goes_on = λ a h. inr (omega (arith, after), accepted_on_ok action (answer d.trace) _ a h);
        }

    kept-Capped :
        {A : Type 0} (d : Daemon) (r : Outcome A × Daemon)
        → Same d r
        → OneAt now k d
        → Capped now k r
    unfolding Same
    kept-Capped d r same one = record { bound = omega arith; goes_on = λ a h. ground arith }

    ignore-Capped : (t : String) (d : Daemon) → OneAt now k d → Capped now k (ignore w c now t d)
    ignore-Capped t d one =
        kept-Capped d _ (unfold Same ignore modify persist_state in (refl, refl)) one

    act-Capped :
        (s : String) (d : Daemon) → commands d.trace ≡ k → Capped now k (act_on_press w c now s d)
    unfolding act_on_press
    act-Capped s d e = elim (Bool-cases (is_stopped s)) [
      | inl stopped ↦ rw stopped (submit-Capped _ _ _ d e refl)
      | inr up ↦ rw up (elim (Bool-cases (is_running s)) [
        | inl running ↦ rw running (submit-Capped _ _ _ d e refl)
        | inr other ↦ rw other (ignore-Capped _ d (inl e))
      ])
    ]

    refreshed_one :
        (s : String) (d : Daemon)
        → OneAt now k d
        → OneAt now k (refresh_power_button_action w c now s d)
    refreshed_one s d one = ground (arith, refresh-trace w c now s d, refresh-accepted w c now s d)

    not_yet :
        (d : Daemon)
        → OneAt now k d
        → within_power_button_debounce w c now d ≡ false
        → commands d.trace ≡ k
    not_yet d (inl none_yet) open_again = none_yet
    not_yet d (inr (one, accepted)) open_again = cc (just_accepted d accepted)

    choose-Capped :
        (busy early : Bool) (m₁ m₂ m₃ : Exec Daemon Unit) (d : Daemon)
        → Capped now k (m₁ d)
        → Capped now k (m₂ d)
        → (early ≡ false → Capped now k (m₃ d))
        → Capped now k ((if busy then m₁ else if early then m₂ else m₃) d)
    choose-Capped true early m₁ m₂ m₃ d h₁ h₂ h₃ = h₁
    choose-Capped false true m₁ m₂ m₃ d h₁ h₂ h₃ = h₂
    choose-Capped false false m₁ m₂ m₃ d h₁ h₂ h₃ = h₃ refl

    press-Capped :
        (s : Option String) (d : Daemon)
        → OneAt now k d
        → Capped now k (press_with_status w c now s d)
    unfolding press_with_status ◌>>=◌
    press-Capped none d one = ignore-Capped _ d one
    press-Capped (some s) d one =
        let d' = refresh_power_button_action w c now s d in
        let one' = refreshed_one s d one in
        choose-Capped d'.state.power_button_action_in_flight
          (within_power_button_debounce w c now d') _ _ _ d' (ignore-Capped _ d' one')
          (ignore-Capped _ d' one') (λ late. act-Capped s d' (not_yet d' one' late))

    continue-Capped :
        {A B : Type 0} (r : Outcome A) (d : Daemon) (f : A → Exec Daemon B)
        → Capped now k (r, d)
        → ((a : A) → OneAt now k d → Capped now k (f a d))
        → Capped now k (continue r f d)
    continue-Capped (ok a) d f h kf = kf a (h.goes_on a refl)
    continue-Capped (raised e) d f h kf = record { bound = h.bound; goes_on = λ a p. cc }

    handle-Capped :
        (d : Daemon) → OneAt now k d → Capped now k (handle_power_button_press w c now d)
    unfolding handle_power_button_press ◌>>=◌
    handle-Capped d one =
        let (r, d') = refresh_vm_status w c now d in
        continue-Capped r d' _ (kept-Capped d (r, d') (refresh-Same d) one)
          (λ a. press-Capped a.0 d')

    presses-Capped :
        (n : ℕ) (d : Daemon) → OneAt now k d → Capped now k (handle_presses w c now n d)
    unfolding handle_presses ◌>>=◌
    presses-Capped zero d one = record { bound = omega arith; goes_on = λ a h. one }
    presses-Capped (suc n) d one =
        let (r, d') = handle_power_button_press w c now d in
        continue-Capped r d' _ (handle-Capped d one) (λ a. presses-Capped n d')

-- However many presses one poll reads, and whatever the VM does meanwhile, they cause at most
-- one `qm start` or `qm shutdown`, also where an exception cuts them short; the debounce time is
-- positive, and no time is measured as zero milliseconds.
pub presses_cause_one :
    (w : Services) (c : AppConfig) (now presses : ℕ) (d : Daemon)
    → w.truncated_ms 0 ≡ 0
    → 0 < c.input.debounce_ms
    → commands (handle_presses w c now presses d).1.trace ≤ commands d.trace + 1
presses_cause_one w c now presses d zero_ms debounced =
    (presses-Capped w c now zero_ms debounced (commands d.trace) presses d (inl refl)).bound

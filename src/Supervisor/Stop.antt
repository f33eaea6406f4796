-- ===== src/Supervisor/Stop.antt =====
-- The end of the viewer: its stop by the session, and the report of its status.
use relay_inner_display_scri.Base.{
  suc, zero, ◌≡◌, refl, Bool, true, false, Option, none, some, ℤ, pos, negsuc, ◌∙◌, if◌then◌else◌,
}
use relay_inner_display_scri.Exec.{Outcome, ok, raised, modify, ◌>>=◌, try_then, handled}
use relay_inner_display_scri.Config.{AppConfig}
use relay_inner_display_scri.Message.{Event, console_exited}
use relay_inner_display_scri.Supervisor.State.{
  Host, SessionSupervisor, refresh_view_state, call_host,
}
use relay_inner_display_scri.Supervisor.Console.{
  forget_console, forget_and_raise, stop_process, stop_console, exit_code, exit_signal,
  console_ended, poll_console, polled, report_status, exit_status,
}

module _ (w : Host) (c : AppConfig) where
  finally_forgets :
      (r : Outcome Unit) (s : SessionSupervisor)
      → (handled r (forget_and_raise w c) (λ _. modify forget_console) s).1.console_process ≡ none
  unfolding forget_and_raise ◌>>=◌ forget_console refresh_view_state
  finally_forgets (ok a) s = refl
  finally_forgets (raised e) s = refl

  forgets_signalled :
      (b : Bool) (pid : ℤ) (s : SessionSupervisor)
      → w.terminate s.history pid ≡ ok tt
      → (stop_process w c b (some pid) s).1.console_process ≡ none
  unfolding stop_process ◌>>=◌ try_then call_host
  forgets_signalled b pid s e = rw e (finally_forgets _ _)

  forgets_known :
      (b : Bool) (pid : ℤ) (s : SessionSupervisor) (p : Option ℤ)
      → p ≡ some pid
      → w.terminate s.history pid ≡ ok tt
      → (stop_process w c b p s).1.console_process ≡ none
  forgets_known b pid s p known e = rw known (forgets_signalled b pid s e)

-- Where a running viewer takes the signal to terminate, it is no longer held after the stop,
-- also if waiting for it or killing it raises an exception.
pub stop_forgets :
    (w : Host) (c : AppConfig) (report_exit : Bool) (pid : ℤ) (s : SessionSupervisor)
    → s.console_process ≡ some pid
    → w.terminate s.history pid ≡ ok tt
    → (stop_console w c report_exit s).1.console_process ≡ none
unfolding stop_console ◌>>=◌
stop_forgets w c report_exit pid s known signalled =
    forgets_known w c report_exit pid s s.console_process known signalled

-- the status of a process whose exit is told by a code and a signal
pub status_of : ℤ → ℤ → ℤ
status_of code (pos zero) = code
status_of code (pos (suc n)) = negsuc n
status_of code (negsuc n) = code

pub reported_status : Option Event → Option ℤ
reported_status none = none
reported_status (some (console_exited code signal backend)) = some (status_of code signal)
reported_status (some _) = none

module _ (w : Host) (c : AppConfig) where
  status_of-exit : (status : ℤ) → status_of (exit_code w c status) (exit_signal w c status) ≡ status
  unfolding status_of exit_code exit_signal
  status_of-exit (pos n) = refl
  status_of-exit (negsuc n) = refl

  told_event :
      (silent : Bool) (e : Event)
      → silent ≡ false
      → reported_status (if silent then none else some e) ≡ reported_status (some e)
  told_event true e h = cc
  told_event false e h = refl

  status_told :
      (o : Option ℤ) (status : ℤ) (s : SessionSupervisor)
      → o ≡ some status
      → s.suppress_exit_report ≡ false
      → reported_status (report_status w c o s).0 ≡ some status
  unfolding report_status console_ended reported_status
  status_told none status s h told = cc
  status_told (some t) status s h told =
      told_event s.suppress_exit_report _ told ∙ rw (status_of-exit t) h

-- For a process that has ended and whose end is not kept silent, the exit status can be read
-- back from the code and the signal of the reported event.
pub reported_status-poll_console :
    (w : Host) (c : AppConfig) (status : ℤ) (s : SessionSupervisor)
    → exit_status w c s ≡ some status
    → s.suppress_exit_report ≡ false
    → reported_status (poll_console w c s).0 ≡ some status
unfolding poll_console polled
reported_status-poll_console w c status s ended told =
    status_told w c (exit_status w c s) status (polled w c s) ended told

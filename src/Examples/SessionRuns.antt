-- ===== src/Examples/SessionRuns.antt =====
-- The theorems on the session at concrete runs.
use relay_inner_display_scri.Base.{◌≡◌, refl, true, false, none, some, [], ◌∷◌, String, pos, negsuc}
use relay_inner_display_scri.Exec.{text, timeout_expired, Outcome, ok, raised}
use relay_inner_display_scri.Message.{Message}
use relay_inner_display_scri.Supervisor.State.{Host, SessionSupervisor, new_supervisor}
use relay_inner_display_scri.Supervisor.Console.{stop_console, poll_console}
use relay_inner_display_scri.Supervisor.Power.{parse_wlr_randr_outputs}
use relay_inner_display_scri.Supervisor.Loop.{Pass, pass}
use relay_inner_display_scri.Supervisor.View.{IsShown}
use relay_inner_display_scri.Supervisor.View.Passes.{pass-IsShown, new_supervisor-IsShown}
use relay_inner_display_scri.Supervisor.Allowed.{OnlyAllowed}
use relay_inner_display_scri.Supervisor.Allowed.Passes.{passes, passes-OnlyAllowed}
use relay_inner_display_scri.Supervisor.Stop.{
  stop_forgets, reported_status, reported_status-poll_console,
}
use relay_inner_display_scri.Supervisor.Outputs.{are_outputs, are_outputs-parse}
use relay_inner_display_scri.Examples.{spice_config}

-- a host on which every process starts, is slow to end, and has ended by signal 9
abbrev host : Host
host = record {
  path_name = λ (p : String). p;
  splitlines = λ (s : String). s ∷ [];
  isalnum = λ ch. true;
  spawn = λ t argv cwd. ok (pos 42);
  terminate = λ t pid. ok tt;
  kill = λ t pid. ok tt;
  wait = λ t pid. raised (timeout_expired (text "wait"));
  poll = λ t pid. some (negsuc 8);
  run_helper = λ t command. ok (record { returncode = 0; stdout = "HDMI-A-1"; stderr = "" });
}

abbrev start_pass : Pass
start_pass = record {
  messages =
      Message.connect_console "spice" "remote-viewer"
        ("remote-viewer" ∷ "--full-screen" ∷ "/run/relay/session.vv" ∷ []) none
      ∷ Message.connect_console "spice" "sh" ("sh" ∷ []) none
      ∷ [];
  disconnected = false;
  accepts = λ n. true;
}

-- the last pass of a connection
abbrev lost_pass : Pass
lost_pass = record { messages = []; disconnected = true; accepts = λ n. true }

abbrev idle : SessionSupervisor
idle = new_supervisor spice_config

abbrev with_console : SessionSupervisor
with_console = record idle {
  console_process = some (pos 42);
  active_console_backend = some "spice";
}

passes-OnlyAllowed_example :
    OnlyAllowed host spice_config
      (passes host spice_config (start_pass ∷ lost_pass ∷ []) (new_supervisor spice_config))
passes-OnlyAllowed_example = passes-OnlyAllowed host spice_config (start_pass ∷ lost_pass ∷ [])

pass-IsShown_example : IsShown (pass host spice_config lost_pass idle).1
unfolding pass relay_inner_display_scri.Exec.◌>>=◌ stop_console new_supervisor
pass-IsShown_example =
    pass-IsShown host spice_config lost_pass idle false (new_supervisor-IsShown spice_config) refl

stop_forgets_example : (stop_console host spice_config false with_console).1.console_process ≡ none
stop_forgets_example = stop_forgets host spice_config false (pos 42) with_console refl refl

reported_status-poll_console_example :
    reported_status (poll_console host spice_config with_console).0 ≡ some (negsuc 8)
unfolding new_supervisor
reported_status-poll_console_example =
    reported_status-poll_console host spice_config (negsuc 8) with_console refl refl

are_outputs-parse_example :
    are_outputs host [] (parse_wlr_randr_outputs host "HDMI-A-1 connected") ≡ true
are_outputs-parse_example = are_outputs-parse host "HDMI-A-1 connected"

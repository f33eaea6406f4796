-- ===== src/Supervisor/State.antt =====
-- The attributes of `SessionSupervisor`, what it calls outside itself, and the view it keeps.
use Prim.Native.Char.{Char}
use relay_inner_display_scri.Base.{
  ℤ, String, Bool, false, Option, none, List, [], ◌∷◌, if◌then◌else◌, is_some, ◌==◌, is_empty,
}
use relay_inner_display_scri.Exec.{Outcome, Exec}
use relay_inner_display_scri.Config.{AppConfig}
use relay_inner_display_scri.Services.{Completed}

-- A process is named by its pid.
pub data ProcessCall : Type 0 where
  spawn : (argv : List String) → (cwd : Option String) → ProcessCall
  terminate kill wait poll : (pid : ℤ) → ProcessCall
  run_helper : (command : List String) → ProcessCall

abbrev pub History : Type 0
History = List ProcessCall

-- The process factory and its processes, the power command runner, and what the code takes from
-- Python's library: `Path(p).name`, `str.splitlines`, and `str.isalnum` of a
-- character. The history holds the calls made so far, the latest first.
pub record Host : Type 0 where
  pub path_name : String → String
  pub splitlines : String → List String
  pub isalnum : Char → Bool
  pub spawn : History → List String → Option String → Outcome ℤ
  pub terminate : History → ℤ → Outcome (Unit {0})
  pub kill : History → ℤ → Outcome (Unit {0})
  pub wait : History → ℤ → Outcome (Unit {0})
  pub poll : History → ℤ → Option ℤ
  pub run_helper : History → List String → Outcome Completed

pub record SessionViewState : Type 0 where
  pub waiting_reason : String
  pub status_text : String
  pub details : Option (List (String × String))
  pub console_active : Bool
  pub cursor_hidden : Bool
  pub display_power_state : String

pub record SessionSupervisor : Type 0 where
  pub power_helper : String
  pub console_process : Option ℤ
  pub active_console_backend : Option String
  pub view_state : SessionViewState
  pub suppress_exit_report : Bool
  pub active_console_uses_legacy_events : Bool
  pub history : History

abbrev pub default_waiting_status : String
default_waiting_status = "Waiting for VM"

-- `__init__`, where no helper is passed in
unfoldable pub new_supervisor : AppConfig → SessionSupervisor
new_supervisor c = record {
  power_helper = c.display.power_helper;
  console_process = none;
  active_console_backend = none;
  view_state = record {
    waiting_reason = "vm_stopped";
    status_text = default_waiting_status;
    details = none;
    console_active = false;
    cursor_hidden = false;
    display_power_state = "on";
  };
  suppress_exit_report = false;
  active_console_uses_legacy_events = false;
  history = [];
}

-- `WAITING_STATUS_TEXT.get(reason, DEFAULT_WAITING_STATUS)`
unfoldable pub waiting_status_text : String → String
waiting_status_text reason =
    if reason == "connecting"
    then "Connecting"
    else if reason == "vm_stopped"
    then default_waiting_status
    else if reason == "pairing_required"
    then "Pairing required"
    else if reason == "reconnecting"
    then "Connection lost"
    else if reason == "degraded"
    then "Degraded"
    else default_waiting_status

unfoldable pub refresh_view_state : SessionSupervisor → SessionSupervisor
refresh_view_state s =
    let shown = is_some s.console_process in
    record s {
      view_state = record s.view_state {
        console_active = shown;
        cursor_hidden = shown;
        status_text =
            if s.view_state.display_power_state == "off"
            then "Display sleeping"
            else waiting_status_text s.view_state.waiting_reason;
      };
    }

unfoldable pub set_waiting_reason : String → SessionSupervisor → SessionSupervisor
set_waiting_reason reason s = record s {
  view_state = record s.view_state { waiting_reason = reason };
}

-- `a or b` on texts
abbrev pub text_or : String → String → String
text_or a b = if is_empty a then b else a

unfoldable pub call_host :
    {A : Type 0} → ProcessCall → (History → Outcome A) → Exec SessionSupervisor A
call_host k answer s = (answer s.history, record s { history = k ∷ s.history })

-- ===== src/Models.antt =====
-- The runtime state of relayinner_display/models.py. Times are microseconds from a fixed origin,
-- in the state file rendered as ISO texts.
use relay_inner_display_scri.Base.{ℕ, ℤ, String, Bool, true, Option, some, ◌==◌}
use relay_inner_display_scri.Exec.{Reason}

pub data SessionState : Type 0 where
  booting waiting_for_session waiting_for_vm waiting_for_pairing requesting_console : SessionState
  showing_console reconnecting_console display_sleeping degraded : SessionState

pub SessionState-discrete : Discrete SessionState
SessionState-discrete = hlevel

pub data MoonlightPairState : Type 0 where
  unknown pending_pin_approval paired : MoonlightPairState

abbrev pub is_pending : MoonlightPairState → Bool
is_pending pending_pin_approval = true
is_pending _ = Bool.false

pub record ConsoleExit : Type 0 where
  pub exited_at : ℕ
  pub code : ℤ
  pub signal : ℤ
  pub backend : Option String

pub record RuntimeState : Type 0 where
  pub vmid : ℕ
  pub node_name : String
  pub console_backend : String
  pub kiosk_compositor : Option String
  pub display_drm_compatibility : Option String
  pub active_console_backend : Option String
  pub vnc_endpoint : Option String
  pub looking_glass_shm_file : Option String
  pub moonlight_host : Option String
  pub moonlight_base_port : Option ℕ
  pub moonlight_app : Option String
  pub moonlight_resolution : Option String
  pub moonlight_pair_state : MoonlightPairState
  pub moonlight_pair_pin : Option String
  pub vm_power_state : String
  pub session_ready : Bool
  pub display_power_intent : String
  pub display_power_applied : String
  pub session_state : SessionState
  pub degraded_reason : Option Reason
  pub last_console_exit : Option ConsoleExit
  pub last_connect_attempt_at : Option ℕ
  pub power_state_since : Option ℕ
  pub last_power_button_at : Option ℕ
  pub power_button_action_in_flight : Bool
  pub last_power_button_action : Option String
  pub last_power_button_result : Option String
  pub last_error : Option Reason

unfoldable pub mark_connect_attempt : ℕ → RuntimeState → RuntimeState
mark_connect_attempt at s = record s { last_connect_attempt_at = some at }

unfoldable pub mark_power_state_since : ℕ → RuntimeState → RuntimeState
mark_power_state_since at s = record s { power_state_since = some at }

unfoldable pub mark_power_button_press : ℕ → String → String → RuntimeState → RuntimeState
mark_power_button_press at action result s = record s {
  last_power_button_at = some at;
  last_power_button_action = some action;
  last_power_button_result = some result;
  power_button_action_in_flight = result == "submitted";
}

unfoldable pub mark_console_exit : ℕ → ℤ → ℤ → Option String → RuntimeState → RuntimeState
mark_console_exit at code signal backend s = record s {
  last_console_exit =
      some (record { exited_at = at; code = code; signal = signal; backend = backend });
}

-- ===== src/Daemon/State.antt =====
-- The attributes of `DisplayDaemon`, its constructor, and the writes that every method shares.
use relay_inner_display_scri.Base.{
  ℕ, ℤ, String, Bool, true, false, Option, none, some, List, [], ◌∷◌,
}
use relay_inner_display_scri.Exec.{Reason, Outcome, Exec}
use relay_inner_display_scri.Config.{
  AppConfig, ConsoleLookingGlassConfig, ConsoleMoonlightConfig, vnc_endpoint,
}
use relay_inner_display_scri.Models.{SessionState, booting, degraded, unknown, RuntimeState}
use relay_inner_display_scri.Services.{Call, Trace}

-- `state_file` is what the state file holds; `trace` is the history of the calls made outside.
pub record Daemon : Type 0 where
  pub state : RuntimeState
  pub session_ready : Bool
  pub console_running : Bool
  pub console_pid : Option ℤ
  pub next_reconnect_at : Option ℕ
  pub current_reconnect_delay_ms : ℕ
  pub started_at : Option ℕ
  pub power_state_since_at : Option ℕ
  pub startup_display_policy_pending : Bool
  pub has_power_button_source : Bool
  pub startup_error : Option Reason
  pub last_power_button_accepted_at : Option ℕ
  pub power_button_action_started_at : Option ℕ
  pub proxmox_failure_timestamps : List ℕ
  pub moonlight_pair_requested_at : Option ℕ
  pub moonlight_pair_launch_pending : Bool
  pub state_file : Option RuntimeState
  pub trace : Trace

-- `x.f if x is not None else None`
abbrev pub map_option {ℓ κ} : {A : Type ℓ} {B : Type κ} → (A → B) → Option A → Option B
map_option f none = none
map_option f (some a) = some (f a)

abbrev moonlight_resolution_of : Option ConsoleMoonlightConfig → Option String
moonlight_resolution_of none = none
moonlight_resolution_of (some m) = m.resolution

-- the `RuntimeState` that `__init__` builds
unfoldable pub initial_state : AppConfig → RuntimeState
initial_state c = record {
  vmid = c.target.vmid;
  node_name = "";
  console_backend = c.target.console_backend;
  kiosk_compositor = some c.kiosk.resolved_compositor;
  display_drm_compatibility = some c.display.drm_compatibility;
  active_console_backend = none;
  vnc_endpoint = map_option vnc_endpoint c.console.vnc;
  looking_glass_shm_file =
      map_option (λ (l : ConsoleLookingGlassConfig). l.shm_file) c.console.looking_glass;
  moonlight_host = map_option (λ (m : ConsoleMoonlightConfig). m.host) c.console.moonlight;
  moonlight_base_port =
      map_option (λ (m : ConsoleMoonlightConfig). m.base_port) c.console.moonlight;
  moonlight_app = map_option (λ (m : ConsoleMoonlightConfig). m.app) c.console.moonlight;
  moonlight_resolution = moonlight_resolution_of c.console.moonlight;
  moonlight_pair_state = unknown;
  moonlight_pair_pin = none;
  vm_power_state = "unknown";
  session_ready = false;
  display_power_intent = "on";
  display_power_applied = "on";
  session_state = booting;
  degraded_reason = none;
  last_console_exit = none;
  last_connect_attempt_at = none;
  power_state_since = none;
  last_power_button_at = none;
  power_button_action_in_flight = false;
  last_power_button_action = none;
  last_power_button_result = none;
  last_error = none;
}

-- `__init__`; the source is there from the start only where a caller passes one in.
unfoldable pub new_daemon : AppConfig → Bool → Option Reason → Daemon
unfolding initial_state
new_daemon c has_source startup_error = record {
  state = initial_state c;
  session_ready = false;
  console_running = false;
  console_pid = none;
  next_reconnect_at = none;
  current_reconnect_delay_ms = c.policy.reconnect_initial_ms;
  started_at = none;
  power_state_since_at = none;
  startup_display_policy_pending = true;
  has_power_button_source = has_source;
  startup_error = startup_error;
  last_power_button_accepted_at = none;
  power_button_action_started_at = none;
  proxmox_failure_timestamps = [];
  moonlight_pair_requested_at = none;
  moonlight_pair_launch_pending = false;
  state_file = none;
  trace = [];
}

-- `degraded_reason` survives only in the degraded state.
abbrev pub reason_kept : SessionState → Option Reason → Option Reason
reason_kept degraded r = r
reason_kept _ r = none

unfoldable pub transition : SessionState → Daemon → Daemon
transition s d = record d {
  state = record d.state {
    session_state = s;
    degraded_reason = reason_kept s d.state.degraded_reason;
  };
}

-- `_persist_state`: the file is replaced as a whole, and the write is taken to succeed.
unfoldable pub persist_state : Daemon → Daemon
persist_state d =
    let written = record d.state { session_ready = d.session_ready } in
    record d { state = written; state_file = some written }

unfoldable pub set_last_error : Option Reason → Daemon → Daemon
set_last_error r d = record d { state = record d.state { last_error = r } }

-- the three assignments by which a console is taken as gone
unfoldable pub drop_console : Daemon → Daemon
drop_console d = record d {
  console_running = false;
  console_pid = none;
  state = record d.state { active_console_backend = none };
}

-- A call outside: the answer is computed from the history, and the call joins the history.
unfoldable pub call : {A : Type 0} → Call → (Trace → Outcome A) → Exec Daemon A
call c answer d = (answer d.trace, record d { trace = c ∷ d.trace })

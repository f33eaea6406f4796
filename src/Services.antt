-- ===== src/Services.antt =====
-- What the daemon calls outside itself: the Proxmox client, the power-button source, the policy
-- checker, the Moonlight workspace and probes, the file system and the user database. Each answer
-- may depend on the whole history of calls, so a value of `Services` is any behaviour of the
-- outside. The names are those of the attributes and methods of relayinner_display/daemon.py.
use relay_inner_display_scri.Base.{ℕ, String, Bool, Option, List}
use relay_inner_display_scri.Exec.{Outcome}
use relay_inner_display_scri.Config.{Python}

pub data Call : Type 0 where
  get_vm_status start_vm : ℕ → Call
  shutdown_vm : ℕ → ℕ → Call
  resolve_node_name : String → Call
  request_spice_config : String → ℕ → Call
  write_vv_file : String → Call
  validate_vnc_configuration : ℕ → String → ℕ → Call
  probe_vnc_endpoint : String → ℕ → Call
  poll_presses validate_policy open_source close_source : Call
  tcp_connect : String → ℕ → Call
  pair_state_probe : String → Bool → Call
  generate_pin contains_pinned_host_record normalize_workspace_host : Call
  run_moonlight : List String → Call

-- The calls made so far, the latest first.
abbrev pub Trace : Type 0
Trace = List Call

-- `subprocess.CompletedProcess`; a negative exit status is not modelled apart from other non-zero
-- ones, since the code only tests for zero.
pub record Completed : Type 0 where
  pub returncode : ℕ
  pub stdout : String
  pub stderr : String

-- `pwd.getpwnam`, `Path.stat` and an entry of `grp.getgrall`.
pub record UserEntry : Type 0 where
  pub pw_name : String
  pub pw_uid : ℕ
  pub pw_gid : ℕ

pub record StatResult : Type 0 where
  pub st_uid : ℕ
  pub st_gid : ℕ
  pub st_mode : ℕ

pub record GroupEntry : Type 0 where
  pub gr_gid : ℕ
  pub gr_mem : List String

pub record FileSystem : Type 0 where
  pub exists : Trace → String → Bool
  pub is_dir : Trace → String → Bool
  pub is_executable : Trace → String → Bool
  pub stat : Trace → String → Outcome StatResult
  pub open_read_only : Trace → String → Outcome (Unit {0})
  pub which : Trace → String → Option String
  pub getpwnam : Trace → String → Option UserEntry
  pub getgrall : Trace → List GroupEntry

pub record Services : Type 0 where
  pub python : Python
  -- `int(seconds * 1000)` of a span in microseconds, a product of floats
  pub truncated_ms : ℕ → ℕ
  -- `csv.reader` over the lines of a text
  pub csv_rows : String → List (List String)
  pub validate_runtime_dependencies : Bool
  -- `os.geteuid() == 0`
  pub runs_as_root : Bool
  pub files : FileSystem
  pub get_vm_status : Trace → ℕ → Outcome String
  pub start_vm : Trace → ℕ → Outcome (Unit {0})
  pub shutdown_vm : Trace → ℕ → ℕ → Outcome (Unit {0})
  pub resolve_node_name : Trace → String → Outcome String
  pub request_spice_config : Trace → String → ℕ → Outcome (List (String × String))
  pub write_vv_file : Trace → String → List (String × String) → Outcome (Unit {0})
  pub validate_vnc_configuration : Trace → ℕ → String → ℕ → Outcome (Unit {0})
  pub probe_vnc_endpoint : Trace → String → ℕ → Outcome (Unit {0})
  pub poll_presses : Trace → Outcome ℕ
  pub validate_policy : Trace → Outcome (Unit {0})
  pub open_source : Trace → Outcome (Unit {0})
  pub tcp_connect : Trace → String → ℕ → Outcome (Unit {0})
  pub pair_state_probe : Trace → String → Bool → Outcome String
  pub generate_pin : Trace → String
  pub contains_pinned_host_record : Trace → Outcome Bool
  pub normalize_workspace_host : Trace → Outcome (Unit {0})
  pub run_moonlight : Trace → List String → Outcome Completed

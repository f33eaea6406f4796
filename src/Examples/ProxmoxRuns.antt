-- ===== src/Examples/ProxmoxRuns.antt =====
-- The theorems on the Proxmox client at concrete outputs.
use Prim.Native.Char.{Char, code}
use relay_inner_display_scri.Base.{
  ℕ, ◌-◌, ◌<◌, ◌≡◌, ◌≢◌, ◌⊎◌, inl, inr, refl, String, true, ◌&&◌, Option, none, some, List, [], ◌∷◌,
  pos, leb, if◌then◌else◌, arith, one_of, eq_iff,
}
use relay_inner_display_scri.Exec.{Reason, proxmox_command_error, Outcome, ok, raised}
use relay_inner_display_scri.Json.{string, array, object, no_items, item, no_fields, field}
use relay_inner_display_scri.Decimal.Prints.{AsciiDigits, is_digit}
use relay_inner_display_scri.AtomicFile.{
  Attempt, Files, atomic_write, IsAtomic, atomic_write-IsAtomic,
}
use relay_inner_display_scri.Proxmox.{
  Client, CommandResult, get_vm_status, resolve_node_name, run_json, nodes_command, node_names,
}
use relay_inner_display_scri.Proxmox.Outputs.{
  IsWord, get_vm_status-prints, get_vm_status-IsWord, IsResolved, resolve_node_name-IsResolved,
}
use relay_inner_display_scri.Proxmox.Vnc.{
  VncEndpoint, parse_vnc_endpoint, read_vnc_endpoint, validate_vnc_configuration, loopback_hosts,
}
use relay_inner_display_scri.Proxmox.Vnc.Endpoints.{
  endpoint_text, parse_vnc_endpoint-text, validated_endpoint,
}
use relay_inner_display_scri.Proxmox.Spice.{Entry, written_entries}
use relay_inner_display_scri.Proxmox.Spice.Local.{AllLocal, written_entries-AllLocal}

abbrev ascii_digit : Char → Option ℕ
ascii_digit ch = if is_digit ch then some (code ch - 48) else none

ascii_digit-AsciiDigits : AsciiDigits ascii_digit
ascii_digit-AsciiDigits c h = ground (arith, h)

-- a client whose commands print `output`
abbrev printing : String → Client
printing output = record {
  timeout_s = 10;
  runner = λ command timeout. ok (record { returncode = pos 0; stdout = output; stderr = "" });
  hostname = "host";
  fqdn = "host.local";
  splitlines = λ s. s ∷ [];
  loads = λ s. inr (array (item (object (field "node" (string "pve1") no_fields)) no_items));
  shlex_split = λ s. some ("-vnc" ∷ "localhost:77,password=on" ∷ []);
  decimal_value = ascii_digit;
  show_json = λ v. "value";
  url_port = λ url. ok (some 3128);
  connect = λ host port. ok tt;
}

abbrev running : Client
running = printing "status: running\n"

get_vm_status-prints_example : get_vm_status running 100 ≡ ok "running"
unfolding relay_inner_display_scri.Decimal.Prints.all_chars relay_inner_display_scri.Base.is_space
    relay_inner_display_scri.Base.show_ℕ
get_vm_status-prints_example =
    get_vm_status-prints running 100 "running"
      (record { returncode = pos 0; stdout = "status: running\n"; stderr = "" }) refl refl refl
      (refl, refl)

get_vm_status-IsWord_example : IsWord "running"
get_vm_status-IsWord_example =
    get_vm_status-IsWord running 100 "running" get_vm_status-prints_example

resolve_node_name-IsResolved_example : IsResolved running (resolve_node_name running "auto")
resolve_node_name-IsResolved_example = resolve_node_name-IsResolved running

abbrev endpoint : VncEndpoint
endpoint = record { bind_host = "localhost"; display_number = 77 }

parse_vnc_endpoint-text_example :
    parse_vnc_endpoint ascii_digit (endpoint_text endpoint (some "password=on")) ≡ ok endpoint
unfolding relay_inner_display_scri.Decimal.Prints.all_chars
parse_vnc_endpoint-text_example =
    parse_vnc_endpoint-text ascii_digit endpoint (some "password=on") ascii_digit-AsciiDigits refl
      refl (omega arith)

abbrev configured_args : Client
configured_args = printing "args: -vnc localhost:77,password=on"

args_validated : validate_vnc_configuration configured_args 100 "127.0.0.1" 77 ≡ ok endpoint
unfolding validate_vnc_configuration read_vnc_endpoint relay_inner_display_scri.Exec.Results.◌>>=◌
    relay_inner_display_scri.Proxmox.Vnc.normalize_loopback_host relay_inner_display_scri.Base.strip
    relay_inner_display_scri.Decimal.parse_int relay_inner_display_scri.Base.show_ℕ
args_validated = refl

validated_endpoint_example :
    (read_vnc_endpoint configured_args 100 ≡ ok endpoint)
    × (◌≡◌ {A = ℕ} 77 77)
    × (one_of "localhost" loopback_hosts ≡ true)
    × (one_of "127.0.0.1" loopback_hosts ≡ true)
validated_endpoint_example =
    validated_endpoint configured_args 100 "127.0.0.1" 77 endpoint args_validated

abbrev entries : List Entry
entries = ("host", "pve") ∷ ("proxy", "http://pve.local:3128") ∷ []

abbrev local_entries : List Entry
local_entries = ("host", "pve") ∷ ("proxy", "http://127.0.0.1:3128") ∷ []

entries_written : written_entries running entries ≡ ok local_entries
unfolding written_entries relay_inner_display_scri.Exec.Results.◌>>=◌
    relay_inner_display_scri.Base.show_ℕ
entries_written = refl

written_entries-AllLocal_example : AllLocal entries local_entries
written_entries-AllLocal_example =
    written_entries-AllLocal running entries local_entries entries_written

abbrev interrupted : Attempt
interrupted = record {
  temp_path = "/run/relay/session.vv.x1.tmp";
  partial = "[virt";
  written = ok tt;
  replaced = raised (proxmox_command_error (Reason.text "disk full"));
}

abbrev no_files : Files
no_files path = none

atomic_write-IsAtomic_example :
    let result = atomic_write interrupted "/run/relay/session.vv" "[virt-viewer]" no_files in
    IsAtomic interrupted "/run/relay/session.vv" "[virt-viewer]" no_files result.0 result.1
atomic_write-IsAtomic_example =
    atomic_write-IsAtomic interrupted "/run/relay/session.vv" "[virt-viewer]" no_files
      (ground (arith, eq_iff "/run/relay/session.vv" "/run/relay/session.vv.x1.tmp"))

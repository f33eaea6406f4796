-- ===== src/Proxmox/Vnc.antt =====
-- The VNC endpoint of a VM: `read_vnc_endpoint`, `_parse_vnc_endpoint` and
-- `validate_vnc_configuration` of relayinner_display/proxmox.py.
pub mod Endpoints
use Prim.Native.Char.{Char, code}
use relay_inner_display_scri.Base.{
  ℕ, ◌+◌, ℤ, pos, negsuc, String, Bool, true, false, not, Option, none, some, List, [], ◌∷◌, eqb,
  if◌then◌else◌, ◌==◌, is_empty, strip, show_ℕ, one_of, concat,
}
use relay_inner_display_scri.Exec.{
  Reason, text, formatted, formatted_with, Exn, proxmox_command_error, vnc_configuration_error,
  vnc_endpoint_unavailable, os_error, Outcome, ok, raised,
}
use relay_inner_display_scri.Exec.Results.{◌>>=◌, ◌>>◌, raise_if}
use relay_inner_display_scri.Decimal.{parse_int}
use relay_inner_display_scri.Proxmox.{Client, run_command, after}

pub record VncEndpoint : Type 0 where
  pub bind_host : String
  pub display_number : ℕ

unfoldable pub endpoint_port : VncEndpoint → ℕ
endpoint_port e = 5900 + e.display_number

abbrev pub loopback_hosts : List String
loopback_hosts = "127.0.0.1" ∷ "localhost" ∷ []

unfoldable pub normalize_loopback_host : String → String
normalize_loopback_host host = if one_of host loopback_hosts then "127.0.0.1" else host

-- `value.split(",", 1)[0]`
unfoldable pub before_comma : String → String
before_comma String.[] = ""
before_comma (String.◌∷◌ c s) =
    let rest = before_comma s in if eqb (code c) b',' then "" else String.◌∷◌ c rest

abbrev pub longer : Char → Option (String × String) → Option (String × String)
longer c none = none
longer c (some (host, display)) = some (String.◌∷◌ c host, display)

-- `value.rsplit(":", 1)`, `none` where there is no colon
unfoldable pub rsplit_colon : String → Option (String × String)
rsplit_colon String.[] = none
rsplit_colon (String.◌∷◌ c s) =
    let later = rsplit_colon s in
    elim later [
      | none ↦ if eqb (code c) b':' then some ("", s) else none
      | some parts ↦ longer c (some parts)
    ]

abbrev pub unsupported : String → String → Outcome VncEndpoint
unsupported template value = raised (vnc_configuration_error (formatted template (value ∷ [])))

abbrev pub endpoint_of : String → String → Option ℤ → Outcome VncEndpoint
endpoint_of value host none = unsupported "Unsupported VNC display number in {!r}" value
endpoint_of value host (some (negsuc _)) =
    unsupported "Unsupported VNC display number in {!r}" value
endpoint_of value host (some (pos n)) = ok (record { bind_host = host; display_number = n })

abbrev pub endpoint_from :
    (Char → Option ℕ) → String → Option (String × String) → Outcome VncEndpoint
endpoint_from dv value none = unsupported "Unsupported VNC endpoint syntax: {!r}" value
endpoint_from dv value (some (host, display)) =
    if is_empty host
    then unsupported "Unsupported VNC endpoint syntax: {!r}" value
    else endpoint_of value host (parse_int dv display)

unfoldable pub parse_vnc_endpoint : (Char → Option ℕ) → String → Outcome VncEndpoint
unfolding before_comma rsplit_colon
parse_vnc_endpoint dv value = endpoint_from dv value (rsplit_colon (before_comma value))

abbrev no_endpoint : {A : Type 0} → Outcome A
no_endpoint = raised (
    vnc_configuration_error
      (text "VM config does not expose a VNC endpoint through `args: -vnc ...`"))

-- the value of the first `args:` line, stripped; the empty text where there is none
unfoldable pub args_value : List String → String
args_value [] = ""
args_value (line ∷ lines) =
    let later = args_value lines in
    elim (after "args:" line) [ none ↦ later | some raw ↦ strip raw ]

module _ (client : Client) where
  abbrev endpoint_after : List String → Outcome VncEndpoint
  endpoint_after [] =
      raised (vnc_configuration_error (text "VM config is missing a VNC endpoint after `-vnc`"))
  endpoint_after (value ∷ _) = parse_vnc_endpoint client.decimal_value value

  -- the loop over the arguments
  unfoldable pub endpoint_in : List String → Outcome VncEndpoint
  unfolding parse_vnc_endpoint
  endpoint_in [] = no_endpoint
  endpoint_in (token ∷ rest) =
      let later = endpoint_in rest in if token == "-vnc" then endpoint_after rest else later

  abbrev endpoint_in_argv : ℕ → Option (List String) → Outcome VncEndpoint
  endpoint_in_argv vmid none = raised (
      proxmox_command_error
        (formatted "qm config returned invalid args for VM {}" (show_ℕ vmid ∷ [])))
  endpoint_in_argv vmid (some argv) = endpoint_in argv

  unfoldable pub read_vnc_endpoint : ℕ → Outcome VncEndpoint
  unfolding endpoint_in args_value run_command
  read_vnc_endpoint vmid = do
    result ← run_command client ("qm" ∷ "config" ∷ show_ℕ vmid ∷ [])
    let args = args_value (client.splitlines result.stdout)
    if is_empty args then no_endpoint else endpoint_in_argv vmid (client.shlex_split args)

  unfoldable pub validate_vnc_configuration : ℕ → String → ℕ → Outcome VncEndpoint
  validate_vnc_configuration vmid bind_host display_number = do
    endpoint ← read_vnc_endpoint vmid
    raise_if (not (one_of endpoint.bind_host loopback_hosts)) (
        vnc_configuration_error (
          formatted "VM config exposes VNC on non-loopback bind_host={!r}"
            (endpoint.bind_host ∷ [])))
    raise_if (not (normalize_loopback_host endpoint.bind_host == normalize_loopback_host bind_host))
        (vnc_configuration_error (
          formatted "VM config VNC bind_host {!r} does not match relay config bind_host={!r}"
            (endpoint.bind_host ∷ bind_host ∷ [])))
    raise_if (not (eqb endpoint.display_number display_number)) (
        vnc_configuration_error (
          formatted "VM config VNC display_number {} does not match relay config display_number={}"
            (show_ℕ endpoint.display_number ∷ show_ℕ display_number ∷ [])))
    ok endpoint

  abbrev unreachable : String → ℕ → Outcome (Unit {0}) → Outcome (Unit {0})
  unreachable bind_host port (ok u) = ok u
  unreachable bind_host port (raised (os_error e)) = raised (
      vnc_endpoint_unavailable (
        formatted_with "VNC endpoint {}:{} is not reachable yet: {}" (bind_host ∷ show_ℕ port ∷ [])
          e))
  unreachable bind_host port (raised e) = raised e

  unfoldable pub probe_vnc_endpoint : String → ℕ → Outcome (Unit {0})
  probe_vnc_endpoint bind_host port = unreachable bind_host port (client.connect bind_host port)

-- ===== src/Moonlight/Probe/Ports.antt =====
-- The probe for a host with a port of its own.
use relay_inner_display_scri.Base.{ℕ, ◌≡◌, refl, String, true, false, Option, none, some, List}
use relay_inner_display_scri.Exec.{ok}
use relay_inner_display_scri.Moonlight.{Library, normalize_host_value}
use relay_inner_display_scri.Moonlight.Settings.{host_records}
use relay_inner_display_scri.Moonlight.Hosts.Ports.{has_colon, AllPlain, port_hides_records}
use relay_inner_display_scri.Moonlight.Probe.{Network, Credentials, probe_with, probe_pair_state}

pub no_credentials :
    (lib : Library) (net : Network) (certificate : Option String) (base_port : ℕ)
    → probe_with lib net none certificate base_port ≡ ok "unpaired"
unfolding probe_with
no_credentials lib net certificate base_port = refl

pub no_certificate :
    (lib : Library) (net : Network) (credentials : Option Credentials) (base_port : ℕ)
    → probe_with lib net credentials none base_port ≡ ok "unpaired"
unfolding probe_with
no_certificate lib net none base_port = refl
no_certificate lib net (some c) base_port = refl

-- If the host authority has a colon, as it has with a port of its own, and no host record of the
-- settings files has one in its host name or an address, then the probe without
-- `allow_any_paired_host` answers `unpaired`, whatever certificate and port the records have and
-- whatever the server would answer.
pub port_hides_pairing :
    (lib : Library) (net : Network) (files : List (List String)) (base_port : ℕ)
    (authority : String)
    → has_colon (normalize_host_value lib authority) ≡ true
    → AllPlain lib (host_records lib files)
    → probe_pair_state lib net files base_port authority false ≡ ok "unpaired"
unfolding probe_pair_state
port_hides_pairing lib net files base_port authority colon plain =
    rw (port_hides_records lib (host_records lib files) authority base_port colon plain)
      (no_certificate lib net _ base_port)

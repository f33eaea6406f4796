-- ===== src/Examples/MoonlightRuns.antt =====
-- The theorems on the workspace of Moonlight at one host record.
use Prim.Native.Char.{code}
use relay_inner_display_scri.Exec.{ok, other, text}
use relay_inner_display_scri.Base.{
  ◌≡◌, ◌&&◌, ◌-◌, leb, if◌then◌else◌, refl, String, true, false, Option, none, some, List, [], ◌∷◌,
}
use relay_inner_display_scri.Moonlight.{Library, normalize_host_value}
use relay_inner_display_scri.Moonlight.Settings.{Record, host_records}
use relay_inner_display_scri.Moonlight.Escapes.{decode_chars}
use relay_inner_display_scri.Moonlight.Escapes.Doubled.{double_backslashes, decode_chars-double}
use relay_inner_display_scri.Moonlight.Hosts.{server_certificate, or_fallback}
use relay_inner_display_scri.Moonlight.Hosts.Choice.{
  first_certificate, matching, when, server_certificate-first,
}
use relay_inner_display_scri.Moonlight.Probe.{
  Element, Network, payload, other_error, probe_pair_state,
}
use relay_inner_display_scri.Moonlight.Probe.Ports.{port_hides_pairing}
use relay_inner_display_scri.Moonlight.Probe.Paired.{IsConfirmed, paired-IsConfirmed}
use relay_inner_display_scri.Moonlight.Probe.Escapes.{HasRaised, probe_pair_state-raised}

-- texts in lower case, and ASCII digits
abbrev library : Library
library = record {
  casefold = λ s. s;
  decimal_value = λ c. if leb 48 (code c) && leb (code c) 57 then some (code c - 48) else none;
  chr = λ n. "x";
}

abbrev host_record : Record
host_record =
    ("srvcert", "@ByteArray(PEM)")
    ∷ ("hostname", "gamer")
    ∷ ("manualaddress", "gamer")
    ∷ ("manualport", "48000")
    ∷ []

server_certificate-first_example :
    server_certificate library (host_record ∷ []) "gamer" 47989 false
    ≡ or_fallback
        (first_certificate library
          (matching library (normalize_host_value library "gamer") 47989 (host_record ∷ [])))
        (when false (first_certificate library (host_record ∷ [])))
server_certificate-first_example =
    server_certificate-first library (host_record ∷ []) "gamer" 47989 false

certificate_test : server_certificate library (host_record ∷ []) "gamer" 47989 false ≡ some "PEM"
unfolding server_certificate relay_inner_display_scri.Base.strip
    relay_inner_display_scri.Moonlight.Hosts.certificate_of
    relay_inner_display_scri.Moonlight.Hosts.record_matches_host normalize_host_value
certificate_test = refl

-- a settings file with a paired host and the credentials of the client
abbrev settings_files : List (List String)
settings_files =
    ("certificate=CERT" ∷ "key=KEY" ∷ "[hosts]" ∷ "1/srvcert=PEM" ∷ "1/hostname=gamer"
      ∷ "1/manualaddress=gamer" ∷ [])
    ∷ []

abbrev document : Element
document = record {
  tag = "root";
  attrib = ("status_code", "200") ∷ [];
  children = ("HttpsPort", some "47984") ∷ ("PairStatus", some "1") ∷ [];
}

-- a server that answers every request, and one that no request gets through to
abbrev network : Network
network = record {
  fromstring = λ text. some document;
  exchange = λ identity port. payload "<root/>";
}

abbrev broken : Network
broken = record {
  fromstring = λ text. none;
  exchange = λ identity port. other_error (other (text "port must be 0-65535"));
}

port_hides_pairing_example :
    probe_pair_state library network settings_files 48000 "gamer:48000" false ≡ ok "unpaired"
unfolding relay_inner_display_scri.Base.strip normalize_host_value host_records
    relay_inner_display_scri.Moonlight.Hosts.Ports.has_colon
    relay_inner_display_scri.Input.split_assignment relay_inner_display_scri.Decimal.value_of_digits
port_hides_pairing_example =
    port_hides_pairing library network settings_files 48000 "gamer:48000" refl
      (record { hostname = refl; manual = refl; local = refl; remote = refl; ipv6 = refl }, tt)

paired-IsConfirmed_example : IsConfirmed library network settings_files 47989 "gamer" false
unfolding relay_inner_display_scri.Base.strip normalize_host_value host_records probe_pair_state
    relay_inner_display_scri.Moonlight.Probe.probe_with
    relay_inner_display_scri.Moonlight.Probe.client_credentials
    relay_inner_display_scri.Moonlight.Escapes.decode_bytearray
    relay_inner_display_scri.Moonlight.Settings.root_settings
    relay_inner_display_scri.Input.split_assignment server_certificate
    relay_inner_display_scri.Decimal.value_of_digits
    relay_inner_display_scri.Moonlight.Hosts.certificate_of
    relay_inner_display_scri.Moonlight.Hosts.record_matches_host
    relay_inner_display_scri.Moonlight.Probe.read_serverinfo_fields
    relay_inner_display_scri.Moonlight.Probe.request_serverinfo
    relay_inner_display_scri.Moonlight.Probe.parse_serverinfo_fields
    relay_inner_display_scri.Decimal.parse_int
    relay_inner_display_scri.Moonlight.Probe.https_port_from_serverinfo
paired-IsConfirmed_example =
    paired-IsConfirmed library network settings_files 47989 "gamer" false refl

probe_pair_state-raised_example :
    HasRaised library broken settings_files 47989 "gamer" false
      (other (text "port must be 0-65535"))
unfolding relay_inner_display_scri.Base.strip normalize_host_value host_records probe_pair_state
    relay_inner_display_scri.Moonlight.Probe.probe_with
    relay_inner_display_scri.Moonlight.Probe.client_credentials
    relay_inner_display_scri.Moonlight.Escapes.decode_bytearray
    relay_inner_display_scri.Moonlight.Settings.root_settings
    relay_inner_display_scri.Input.split_assignment server_certificate
    relay_inner_display_scri.Decimal.value_of_digits
    relay_inner_display_scri.Moonlight.Hosts.certificate_of
    relay_inner_display_scri.Moonlight.Hosts.record_matches_host
    relay_inner_display_scri.Moonlight.Probe.read_serverinfo_fields
    relay_inner_display_scri.Moonlight.Probe.request_serverinfo
probe_pair_state-raised_example =
    probe_pair_state-raised library broken settings_files 47989 "gamer" false _ refl

decode_chars-double_example : decode_chars library (double_backslashes "C:\\games") ≡ "C:\\games"
decode_chars-double_example = decode_chars-double library "C:\\games"

-- ===== src/Moonlight/Hosts.antt =====
-- Which certificate of the workspace stands for the configured host:
-- `_moonlight_workspace_server_certificate` and the comparison of a record with the host.
pub mod Choice
pub mod Ports
use Prim.Native.Char.{Char}
use relay_inner_display_scri.Base.{
  ℕ, ℤ, pos, negsuc, String, Bool, true, false, not, ◌&&◌, Option, none, some, List, [], ◌∷◌, eqb,
  if◌then◌else◌, is_empty, strip, ◌==◌,
}
use relay_inner_display_scri.Decimal.{parse_int}
use relay_inner_display_scri.Moonlight.{Library, normalize_host_value}
use relay_inner_display_scri.Moonlight.Escapes.{decode_bytearray}
use relay_inner_display_scri.Moonlight.Settings.{Record, field_of}

abbrev pub host_address_fields : List (String × String)
host_address_fields =
    ("manualaddress", "manualport")
    ∷ ("localaddress", "localport")
    ∷ ("remoteaddress", "remoteport")
    ∷ ("ipv6address", "ipv6port")
    ∷ []

abbrev is_port : ℕ → Option ℤ → Bool
is_port port (some (pos n)) = eqb n port
is_port port _ = false

abbrev pub or_fallback : Option String → Option String → Option String
or_fallback none fallback = fallback
or_fallback (some c) later = some c

-- What a record with its certificate, and whether it is the host, does to the search.
abbrev pub after_record :
    Option String → Bool → Option String → (Option String → Option String) → Option String
after_record none is_match fallback later = later fallback
after_record (some c) true fallback later = some c
after_record (some c) false fallback later = later (or_fallback fallback (some c))

module _ (lib : Library) where
  -- an address, by its normal form; an empty one matches no host
  abbrev pub is_host : String → String → Bool
  is_host configured_host value =
      let normalized = normalize_host_value lib value in
      not (is_empty normalized) && normalized == configured_host

  abbrev port_matches : ℕ → String → Bool
  port_matches configured_port text =
      let port = strip text in
      if is_empty port then true else is_port configured_port (parse_int lib.decimal_value port)

  -- the loop over the addresses: the first one that is the host decides
  unfoldable pub address_matches : Record → String → ℕ → List (String × String) → Bool
  address_matches r configured_host configured_port [] = false
  address_matches r configured_host configured_port ((address, port) ∷ rest) =
      let later = address_matches r configured_host configured_port rest in
      if is_host configured_host (field_of r address)
      then port_matches configured_port (field_of r port)
      else later

  unfoldable pub record_matches_host : Record → String → ℕ → Bool
  unfolding address_matches
  record_matches_host r configured_host configured_port =
      if is_host configured_host (field_of r "hostname")
      then true
      else address_matches r configured_host configured_port host_address_fields

  -- the decoded certificate of a record, `none` where there is none
  unfoldable pub certificate_of : Record → Option String
  unfolding decode_bytearray
  certificate_of r =
      let raw = strip (field_of r "srvcert") in
      if is_empty raw then none else decode_bytearray lib raw

  -- the loop over the records, with the first certificate so far
  unfoldable pub certificate_in : String → ℕ → Bool → Option String → List Record → Option String
  certificate_in configured_host configured_port allow_any fallback [] =
      if allow_any then fallback else none
  certificate_in configured_host configured_port allow_any fallback (r ∷ rest) =
      after_record (certificate_of r) (record_matches_host r configured_host configured_port)
        fallback
        (λ (f : Option String). certificate_in configured_host configured_port allow_any f rest)

  unfoldable pub server_certificate : List Record → String → ℕ → Bool → Option String
  unfolding certificate_in
  server_certificate records host_authority base_port allow_any_paired_host =
      certificate_in (normalize_host_value lib host_authority) base_port allow_any_paired_host none
        records

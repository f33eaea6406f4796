-- ===== src/Moonlight/Probe.antt =====
-- `_probe_moonlight_pair_state`: the live probe of a pairing by way of the server's `/serverinfo`. The
-- texts of its errors are logged only, and left out.
pub mod Escapes
pub mod Paired
pub mod Ports
use relay_inner_display_scri.Base.{
  ℕ, ℤ, pos, negsuc, String, Bool, true, false, Option, none, some, List, [], ◌∷◌, eqb,
  if◌then◌else◌, is_empty, strip, ◌==◌, not,
}
use relay_inner_display_scri.Exec.{Exn, Outcome, ok, raised}
use relay_inner_display_scri.Decimal.{parse_int}
use relay_inner_display_scri.Moonlight.{Library}
use relay_inner_display_scri.Moonlight.Settings.{
  Record, field_of, set_field, host_records, root_settings,
}
use relay_inner_display_scri.Moonlight.Escapes.{decode_bytearray}
use relay_inner_display_scri.Moonlight.Hosts.{server_certificate}

-- What an HTTP request gives: `SSLError`, another `OSError` or `HTTPException`, any other exception,
-- or the decoded payload.
pub data Exchange : Type 0 where
  tls_error connection_error : Exchange
  other_error : Exn → Exchange
  payload : String → Exchange

-- A value, `MoonlightServerInfoConnectionError`, `MoonlightServerInfoAuthError`, another
-- `RuntimeValidationError`, or an exception of another class.
pub data Answer {ℓ} (A : Type ℓ) : Type ℓ where
  answered : A → Answer A
  unreachable denied invalid : Answer A
  escaped : Exn → Answer A

module _ {ℓ κ} {A : Type ℓ} {B : Type κ} where
  infixl 10 ◌>>=◌
  abbrev pub ◌>>=◌ : Answer A → (A → Answer B) → Answer B
  answered a >>= f = f a
  unreachable >>= f = unreachable
  denied >>= f = denied
  invalid >>= f = invalid
  escaped e >>= f = escaped e

-- `xml.etree.ElementTree.Element`: its children by their tags and texts
pub record Element : Type 0 where
  pub tag : String
  pub attrib : Record
  pub children : List (String × Option String)

-- the certificate and the key of the client
abbrev pub Credentials : Type 0
Credentials = String × String

-- What the probe takes from outside: `ET.fromstring`, `none` for a ParseError, and the request to a
-- port, over TLS with the certificate of the server and the credentials where they are given.
pub record Network : Type 0 where
  pub fromstring : String → Option Element
  pub exchange : Option (String × Credentials) → ℤ → Exchange

unfoldable pub request_serverinfo : Exchange → Answer String
request_serverinfo tls_error = invalid
request_serverinfo connection_error = unreachable
request_serverinfo (other_error e) = escaped e
request_serverinfo (payload text) = if is_empty (strip text) then invalid else answered text

abbrev text_or_empty : Option String → String
text_or_empty none = ""
text_or_empty (some s) = s

-- the fields of a document; the last child with a tag counts
abbrev fields_of : List (String × Option String) → Record → Record
fields_of [] fields = fields
fields_of ((tag, text) ∷ rest) fields =
    fields_of rest (set_field tag (strip (text_or_empty text)) fields)

abbrev by_status : Option ℤ → Element → Answer Record
by_status none root = invalid
by_status (some (negsuc n)) root = invalid
by_status (some (pos n)) root =
    if eqb n 401
    then denied
    else if eqb n 200
    then answered (fields_of root.children [])
    else invalid

-- the port that the server names, or the default one
abbrev or_default_port : Option ℤ → Answer ℤ
or_default_port none = invalid
or_default_port (some (negsuc n)) = answered (negsuc n)
or_default_port (some (pos n)) = answered (pos (if eqb n 0 then 47984 else n))

abbrev both : Option String → Option String → Option Credentials
both (some certificate) (some key) = some (certificate, key)
both _ _ = none

abbrev confirmed : Record → String
confirmed fields = if strip (field_of fields "PairStatus") == "1" then "paired" else "unpaired"

-- the `except` clauses of the probe
abbrev concluded : Answer Record → Outcome String
concluded (answered fields) = ok (confirmed fields)
concluded unreachable = ok "unreachable"
concluded denied = ok "unpaired"
concluded invalid = ok "unpaired"
concluded (escaped e) = raised e

module _ (lib : Library) (net : Network) where
  abbrev parsed_root : Option Element → Answer Record
  parsed_root none = invalid
  parsed_root (some root) =
      let fields =
        by_status (parse_int lib.decimal_value (field_of root.attrib "status_code")) root in
      if root.tag == "root" then fields else invalid

  unfoldable pub parse_serverinfo_fields : String → Answer Record
  parse_serverinfo_fields text = parsed_root (net.fromstring text)

  unfoldable pub read_serverinfo_fields : Option (String × Credentials) → ℤ → Answer Record
  read_serverinfo_fields identity port =
      request_serverinfo (net.exchange identity port) >>= parse_serverinfo_fields

  unfoldable pub https_port_from_serverinfo : Record → Answer ℤ
  https_port_from_serverinfo fields =
      let text = strip (field_of fields "HttpsPort") in
      if is_empty text
      then answered (pos 47984)
      else or_default_port (parse_int lib.decimal_value text)

  unfoldable pub client_credentials : List (List String) → Option Credentials
  client_credentials files =
      let settings = root_settings lib files [] in
      both (decode_bytearray lib (field_of settings "certificate"))
        (decode_bytearray lib (field_of settings "key"))

  -- the two requests, the second one over TLS
  unfoldable pub probe_with : Option Credentials → Option String → ℕ → Outcome String
  probe_with (some credentials) (some certificate) base_port = concluded (do
    http_fields ← read_serverinfo_fields none (pos base_port)
    port ← https_port_from_serverinfo http_fields
    read_serverinfo_fields (some (certificate, credentials)) port)
  probe_with _ _ base_port = ok "unpaired"

  unfoldable pub probe_pair_state : List (List String) → ℕ → String → Bool → Outcome String
  probe_pair_state files base_port host_authority allow_any_paired_host =
      probe_with (client_credentials files)
        (server_certificate lib (host_records lib files) host_authority base_port
          allow_any_paired_host)
        base_port

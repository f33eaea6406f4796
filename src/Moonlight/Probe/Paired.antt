-- ===== src/Moonlight/Probe/Paired.antt =====
-- What a probe that answers `paired` has seen.
use relay_inner_display_scri.Base.{
  ℕ, ℤ, pos, negsuc, ◌≡◌, refl, ◌∙◌, sym, ap, String, Bool, true, false, Option, none, some, List,
  [], eqb, if◌then◌else◌, is_empty, strip, ◌==◌, eq_iff, arith,
}
use relay_inner_display_scri.Exec.{Outcome, ok}
use relay_inner_display_scri.Decimal.{parse_int}
use relay_inner_display_scri.Moonlight.{Library}
use relay_inner_display_scri.Moonlight.Settings.{Record, field_of, host_records}
use relay_inner_display_scri.Moonlight.Hosts.{server_certificate}
use relay_inner_display_scri.Moonlight.Probe.Ports.{no_certificate, no_credentials}
use relay_inner_display_scri.Moonlight.Probe.{
  Exchange, tls_error, connection_error, other_error, payload, Answer, answered, unreachable,
  denied, invalid, escaped, Element, Credentials, Network, request_serverinfo, by_status, concluded,
  parsed_root, parse_serverinfo_fields, read_serverinfo_fields, https_port_from_serverinfo,
  client_credentials, probe_with, probe_pair_state, ◌>>=◌, fields_of,
}

module _ {ℓ κ} {A : Type ℓ} {B : Type κ} where
  bound :
      (m : Answer A) (f : A → Answer B) (b : B)
      → (m >>= f) ≡ answered b
      → (a : A) × ((m ≡ answered a) × (f a ≡ answered b))
  bound (answered a) f b h = (a, (refl, h))
  bound unreachable f b h = cc h
  bound denied f b h = cc h
  bound invalid f b h = cc h
  bound (escaped e) f b h = cc h

-- the answer of the server at a port, read as a document with status 200
pub record HasAnswered (lib : Library) (net : Network) (identity : Option (String × Credentials))
    (port : ℤ) (fields : Record) : Type 0 where
  pub text : String
  pub root : Element
  pub sent : net.exchange identity port ≡ payload text
  pub parsed : net.fromstring text ≡ some root
  pub tag : root.tag ≡ "root"
  pub status : parse_int lib.decimal_value (field_of root.attrib "status_code") ≡ some (pos 200)
  pub children : fields_of root.children [] ≡ fields

filled :
    (b : Bool) (s text : String)
    → (if b then invalid else answered s) ≡ answered text
    → payload s ≡ payload text
filled true s text h = cc h
filled false s text h = cc h

request-sent :
    (x : Exchange) (text : String) → request_serverinfo x ≡ answered text → x ≡ payload text
unfolding request_serverinfo
request-sent tls_error text h = cc h
request-sent connection_error text h = cc h
request-sent (other_error e) text h = cc h
request-sent (payload s) text h = filled (is_empty (strip s)) s text h

by_code :
    (unauthorized fine : Bool) (found fields : Record)
    → (if unauthorized then denied else if fine then answered found else invalid) ≡ answered fields
    → (fine ≡ true) × (found ≡ fields)
by_code true fine found fields h = cc h
by_code false true found fields h = (refl, cc h)
by_code false false found fields h = cc h

status_of :
    (status : Option ℤ) (root : Element) (fields : Record)
    → by_status status root ≡ answered fields
    → (status ≡ some (pos 200)) × (fields_of root.children [] ≡ fields)
status_of none root fields h = cc h
status_of (some (negsuc n)) root fields h = cc h
status_of (some (pos n)) root fields h =
    let (code, children) = by_code (eqb n 401) (eqb n 200) (fields_of root.children []) fields h in
    (ap (λ (k : ℕ). some (pos k)) (ground (arith, code)), children)

module _ (lib : Library) (net : Network) where
  tagged :
      (b : Bool) (found : Answer Record) (fields : Record)
      → (if b then found else invalid) ≡ answered fields
      → (b ≡ true) × (found ≡ answered fields)
  tagged true found fields h = (refl, h)
  tagged false found fields h = cc h

  has_parsed :
      (identity : Option (String × Credentials)) (port : ℤ) (fields : Record) (text : String)
      (parse : Option Element)
      → net.exchange identity port ≡ payload text
      → net.fromstring text ≡ parse
      → parsed_root lib net parse ≡ answered fields
      → HasAnswered lib net identity port fields
  has_parsed identity port fields text none sent parsed h = cc h
  has_parsed identity port fields text (some root) sent parsed h =
      let (tag, found) = tagged (root.tag == "root") _ fields h in
      let (status, children) = status_of _ root fields found in
      record {
        text = text;
        root = root;
        sent = sent;
        parsed = parsed;
        tag = (eq_iff root.tag "root").0 tag;
        status = status;
        children = children;
      }

  pub read-HasAnswered :
      (identity : Option (String × Credentials)) (port : ℤ) (fields : Record)
      → read_serverinfo_fields lib net identity port ≡ answered fields
      → HasAnswered lib net identity port fields
  unfolding read_serverinfo_fields parse_serverinfo_fields
  read-HasAnswered identity port fields h =
      let (text, (sent, parsed)) =
        bound (request_serverinfo (net.exchange identity port)) (parse_serverinfo_fields lib net)
          fields h in
      has_parsed identity port fields text (net.fromstring text) (request-sent _ text sent) refl
        parsed

paired_word :
    (b : Bool)
    → ◌≡◌ {A = Outcome String} (ok (if b then "paired" else "unpaired")) (ok "paired")
    → b ≡ true
paired_word true h = refl
paired_word false h = cc h

concluded_paired :
    (a : Answer Record)
    → concluded a ≡ ok "paired"
    → (fields : Record) × ((a ≡ answered fields) × (strip (field_of fields "PairStatus") ≡ "1"))
concluded_paired (answered fields) h = (fields, (refl, (eq_iff _ "1").0 (paired_word _ h)))
concluded_paired unreachable h = cc h
concluded_paired denied h = cc h
concluded_paired invalid h = cc h
concluded_paired (escaped e) h = cc h

-- the three answers in a row
chained :
    (http : Answer Record) (port_of : Record → Answer ℤ) (https : ℤ → Answer Record)
    (fields : Record)
    → (http >>= λ (f : Record). (port_of f >>= https)) ≡ answered fields
    → (first : Record) × ((http ≡ answered first)
        × ((port : ℤ) × ((port_of first ≡ answered port) × (https port ≡ answered fields))))
chained http port_of https fields h =
    let (first, (found, later)) = bound http (λ (f : Record). (port_of f >>= https)) fields h in
    (first, (found, bound (port_of first) https fields later))

module _ (lib : Library) (net : Network) (base_port : ℕ) where
  -- the answers that a probe with credentials and a certificate has had
  pub record HasConfirmed (credentials : Credentials) (certificate : String) : Type 0 where
    pub http_fields : Record
    pub over_http : HasAnswered lib net none (pos base_port) http_fields
    pub port : ℤ
    pub names_port : https_port_from_serverinfo lib net http_fields ≡ answered port
    pub https_fields : Record
    pub over_https : HasAnswered lib net (some (certificate, credentials)) port https_fields
    pub pair_status : strip (field_of https_fields "PairStatus") ≡ "1"

  answers-HasConfirmed :
      (credentials : Credentials) (certificate : String) (fields : Record)
      → (read_serverinfo_fields lib net none (pos base_port) >>= λ (f : Record).
          (https_port_from_serverinfo lib net f
            >>= read_serverinfo_fields lib net (some (certificate, credentials))))
        ≡ answered fields
      → strip (field_of fields "PairStatus") ≡ "1"
      → HasConfirmed credentials certificate
  answers-HasConfirmed credentials certificate fields found status =
      let (http_fields, (over_http, (port, (names, over_https)))) =
        chained (read_serverinfo_fields lib net none (pos base_port))
          (https_port_from_serverinfo lib net)
          (read_serverinfo_fields lib net (some (certificate, credentials))) fields found in
      record {
        http_fields = http_fields;
        over_http = read-HasAnswered lib net none (pos base_port) http_fields over_http;
        port = port;
        names_port = names;
        https_fields = fields;
        over_https =
            read-HasAnswered lib net (some (certificate, credentials)) port fields over_https;
        pair_status = status;
      }

  probe_with-HasConfirmed :
      (credentials : Credentials) (certificate : String)
      → probe_with lib net (some credentials) (some certificate) base_port ≡ ok "paired"
      → HasConfirmed credentials certificate
  unfolding probe_with
  probe_with-HasConfirmed credentials certificate h =
      let (fields, (found, status)) =
        concluded_paired
          (read_serverinfo_fields lib net none (pos base_port) >>= λ (f : Record).
            (https_port_from_serverinfo lib net f
              >>= read_serverinfo_fields lib net (some (certificate, credentials))))
          h in
      answers-HasConfirmed credentials certificate fields found status

unpaired_differs : {A : Type 0} → ◌≡◌ {A = Outcome String} (ok "unpaired") (ok "paired") → A
unpaired_differs h = cc h

-- Pairing is confirmed by the server that holds the certificate of the workspace: its answer over TLS,
-- at the port that it names over plain HTTP, to the credentials of the client.
pub record IsConfirmed (lib : Library) (net : Network) (files : List (List String)) (base_port : ℕ)
    (authority : String) (allowed : Bool) : Type 0 where
  pub credentials : Credentials
  pub certificate : String
  pub has_credentials : client_credentials lib net files ≡ some credentials
  pub has_certificate :
      server_certificate lib (host_records lib files) authority base_port allowed ≡ some certificate
  pub confirms : HasConfirmed lib net base_port credentials certificate

module _ (lib : Library) (net : Network) (files : List (List String)) (base_port : ℕ)
    (authority : String) (allowed : Bool) where
  probe_results :
      (credentials : Option Credentials) (certificate : Option String)
      → client_credentials lib net files ≡ credentials
      → server_certificate lib (host_records lib files) authority base_port allowed ≡ certificate
      → probe_with lib net credentials certificate base_port ≡ ok "paired"
      → IsConfirmed lib net files base_port authority allowed
  probe_results none certificate c s h =
      unpaired_differs (sym (no_credentials lib net certificate base_port) ∙ h)
  probe_results (some credentials) none c s h =
      unpaired_differs (sym (no_certificate lib net (some credentials) base_port) ∙ h)
  probe_results (some credentials) (some certificate) c s h = record {
    credentials = credentials;
    certificate = certificate;
    has_credentials = c;
    has_certificate = s;
    confirms = probe_with-HasConfirmed lib net base_port credentials certificate h;
  }

  -- If the probe answers `paired`, then the workspace has the credentials of the client and a
  -- certificate for the host, the server has answered over plain HTTP with status 200, has
  -- answered with status 200 again over TLS with that certificate and those credentials at the
  -- port that its first answer names, and the pair status of the second answer is 1.
  pub paired-IsConfirmed :
      probe_pair_state lib net files base_port authority allowed ≡ ok "paired"
      → IsConfirmed lib net files base_port authority allowed
  unfolding probe_pair_state
  paired-IsConfirmed h = probe_results _ _ refl refl h

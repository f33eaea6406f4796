-- ===== src/Moonlight/Probe/Escapes.antt =====
-- Which exceptions leave the probe.
use relay_inner_display_scri.Base.{
  ℕ, ℤ, pos, negsuc, ◌≡◌, refl, sym, ◌∙◌, ◌⊎◌, inl, inr, String, Bool, true, false, Option, none,
  some, List, if◌then◌else◌, is_empty, strip, eqb, ◌==◌,
}
use relay_inner_display_scri.Exec.{Exn, raised}
use relay_inner_display_scri.Decimal.{parse_int}
use relay_inner_display_scri.Moonlight.{Library}
use relay_inner_display_scri.Moonlight.Settings.{Record, field_of, host_records}
use relay_inner_display_scri.Exec.{Outcome, ok, raised}
use relay_inner_display_scri.Moonlight.Hosts.{server_certificate}
use relay_inner_display_scri.Moonlight.Probe.Ports.{no_certificate, no_credentials}
use relay_inner_display_scri.Moonlight.Probe.Paired.{HasAnswered, read-HasAnswered}
use relay_inner_display_scri.Moonlight.Probe.{
  Exchange, tls_error, connection_error, other_error, payload, Answer, answered, unreachable,
  denied, invalid, escaped, Element, Credentials, Network, request_serverinfo, by_status, concluded,
  parsed_root, parse_serverinfo_fields, or_default_port, read_serverinfo_fields,
  https_port_from_serverinfo, client_credentials, probe_with, probe_pair_state, ◌>>=◌,
}

-- the answer is no exception of another class
abbrev IsCaught : {A : Type 0} → Answer A → Type 0
IsCaught a = (e : Exn) → a ≡ escaped e → ⊥

either_branch :
    {A : Type 0} (b : Bool) (x y : Answer A)
    → IsCaught x
    → IsCaught y
    → IsCaught (if b then x else y)
either_branch true x y p q = p
either_branch false x y p q = q

by_status-IsCaught : (status : Option ℤ) (root : Element) → IsCaught (by_status status root)
by_status-IsCaught none root = λ e h. cc h
by_status-IsCaught (some (negsuc n)) root = λ e h. cc h
by_status-IsCaught (some (pos n)) root =
    either_branch (eqb n 401) _ _ (λ e h. cc h)
      (either_branch (eqb n 200) _ _ (λ e h. cc h) (λ e h. cc h))

or_default_port-IsCaught : (port : Option ℤ) → IsCaught (or_default_port port)
or_default_port-IsCaught none = λ e h. cc h
or_default_port-IsCaught (some (negsuc n)) = λ e h. cc h
or_default_port-IsCaught (some (pos n)) = λ e h. cc h

bind-escaped :
    {A B : Type 0} (m : Answer A) (f : A → Answer B) (e : Exn)
    → (m >>= f) ≡ escaped e
    → (m ≡ escaped e) ⊎ ((a : A) × ((m ≡ answered a) × (f a ≡ escaped e)))
bind-escaped (answered a) f e h = inr (a, (refl, h))
bind-escaped unreachable f e h = cc h
bind-escaped denied f e h = cc h
bind-escaped invalid f e h = cc h
bind-escaped (escaped x) f e h = inl (cc h)

request-escaped : (x : Exchange) (e : Exn) → request_serverinfo x ≡ escaped e → x ≡ other_error e
unfolding request_serverinfo
request-escaped tls_error e h = cc h
request-escaped connection_error e h = cc h
request-escaped (other_error x) e h = cc h
request-escaped (payload s) e h =
    elim (either_branch (is_empty (strip s)) invalid (answered s) (λ x k. cc k) (λ x k. cc k) e
      h) [ ]

module _ (lib : Library) (net : Network) where
  parsed_root-IsCaught : (parse : Option Element) → IsCaught (parsed_root lib net parse)
  parsed_root-IsCaught none = λ e h. cc h
  parsed_root-IsCaught (some root) =
      either_branch (root.tag == "root") _ invalid
        (by_status-IsCaught (parse_int lib.decimal_value (field_of root.attrib "status_code")) root)
        (λ e h. cc h)

  read-escaped :
      (identity : Option (String × Credentials)) (port : ℤ) (e : Exn)
      → read_serverinfo_fields lib net identity port ≡ escaped e
      → net.exchange identity port ≡ other_error e
  unfolding read_serverinfo_fields parse_serverinfo_fields
  read-escaped identity port e h =
      elim (bind-escaped (request_serverinfo (net.exchange identity port))
        (parse_serverinfo_fields lib net) e h) [
          | inl first ↦ request-escaped (net.exchange identity port) e first
          | inr (text, (sent, later)) ↦
              elim (parsed_root-IsCaught (net.fromstring text) e later) [ ]
        ]

  https_port-IsCaught : (fields : Record) → IsCaught (https_port_from_serverinfo lib net fields)
  unfolding https_port_from_serverinfo
  https_port-IsCaught fields =
      either_branch (is_empty (strip (field_of fields "HttpsPort"))) _ _ (λ e h. cc h)
        (or_default_port-IsCaught _)

  -- The request over TLS raised the exception: the server has answered over plain HTTP, and the
  -- request went to the port that this answer names.
  pub record HasRaisedOverTls (base_port : ℕ) (certificate : String) (credentials : Credentials)
      (e : Exn) : Type 0 where
    pub http_fields : Record
    pub over_http : HasAnswered lib net none (pos base_port) http_fields
    pub port : ℤ
    pub names_port : https_port_from_serverinfo lib net http_fields ≡ answered port
    pub raises : net.exchange (some (certificate, credentials)) port ≡ other_error e

  -- the request of the probe that raised the exception
  abbrev pub RequestRaised : ℕ → String → Credentials → Exn → Type 0
  RequestRaised base_port certificate credentials e =
      (net.exchange none (pos base_port) ≡ other_error e)
      ⊎ HasRaisedOverTls base_port certificate credentials e

  over_tls :
      (base_port : ℕ) (certificate : String) (credentials : Credentials) (e : Exn)
      (http_fields : Record) (port : Answer ℤ)
      → read_serverinfo_fields lib net none (pos base_port) ≡ answered http_fields
      → https_port_from_serverinfo lib net http_fields ≡ port
      → (port >>= read_serverinfo_fields lib net (some (certificate, credentials))) ≡ escaped e
      → HasRaisedOverTls base_port certificate credentials e
  over_tls base_port certificate credentials e http_fields (answered p) read names h = record {
    http_fields = http_fields;
    over_http = read-HasAnswered lib net none (pos base_port) http_fields read;
    port = p;
    names_port = names;
    raises = read-escaped (some (certificate, credentials)) p e h;
  }
  over_tls base_port certificate credentials e http_fields unreachable read names h = cc h
  over_tls base_port certificate credentials e http_fields denied read names h = cc h
  over_tls base_port certificate credentials e http_fields invalid read names h = cc h
  over_tls base_port certificate credentials e http_fields (escaped x) read names h =
      elim (https_port-IsCaught http_fields x names) [ ]

  both-raised :
      (base_port : ℕ) (certificate : String) (credentials : Credentials) (e : Exn)
      → (read_serverinfo_fields lib net none (pos base_port) >>= λ (f : Record).
          (https_port_from_serverinfo lib net f
            >>= read_serverinfo_fields lib net (some (certificate, credentials))))
        ≡ escaped e
      → RequestRaised base_port certificate credentials e
  both-raised base_port certificate credentials e h =
      elim (bind-escaped (read_serverinfo_fields lib net none (pos base_port))
        (λ (f : Record).
          (https_port_from_serverinfo lib net f
            >>= read_serverinfo_fields lib net (some (certificate, credentials))))
        e h) [
          | inl first ↦ inl (read-escaped none (pos base_port) e first)
          | inr (fields, (read, later)) ↦
              inr (over_tls base_port certificate credentials e fields _ read refl later)
        ]

  concluded_raised : (a : Answer Record) (e : Exn) → concluded a ≡ raised e → a ≡ escaped e
  concluded_raised (answered fields) e h = cc h
  concluded_raised unreachable e h = cc h
  concluded_raised denied e h = cc h
  concluded_raised invalid e h = cc h
  concluded_raised (escaped x) e h = cc h

  probe_with-raised :
      (credentials : Credentials) (certificate : String) (base_port : ℕ) (e : Exn)
      → probe_with lib net (some credentials) (some certificate) base_port ≡ raised e
      → RequestRaised base_port certificate credentials e
  unfolding probe_with
  probe_with-raised credentials certificate base_port e h =
      both-raised base_port certificate credentials e (concluded_raised _ e h)

ok_differs : {A : Type 0} (e : Exn) → ◌≡◌ {A = Outcome String} (ok "unpaired") (raised e) → A
ok_differs e h = cc h

-- The exception is that of a request that the probe has made, with the credentials and the certificate
-- of the workspace.
pub record HasRaised (lib : Library) (net : Network) (files : List (List String)) (base_port : ℕ)
    (authority : String) (allowed : Bool) (e : Exn) : Type 0 where
  pub credentials : Credentials
  pub certificate : String
  pub has_credentials : client_credentials lib net files ≡ some credentials
  pub has_certificate :
      server_certificate lib (host_records lib files) authority base_port allowed ≡ some certificate
  pub request : RequestRaised lib net base_port certificate credentials e

module _ (lib : Library) (net : Network) (files : List (List String)) (base_port : ℕ)
    (authority : String) (allowed : Bool) (e : Exn) where
  raised_by :
      (credentials : Option Credentials) (certificate : Option String)
      → client_credentials lib net files ≡ credentials
      → server_certificate lib (host_records lib files) authority base_port allowed ≡ certificate
      → probe_with lib net credentials certificate base_port ≡ raised e
      → HasRaised lib net files base_port authority allowed e
  raised_by none certificate c s h =
      ok_differs e (sym (no_credentials lib net certificate base_port) ∙ h)
  raised_by (some credentials) none c s h =
      ok_differs e (sym (no_certificate lib net (some credentials) base_port) ∙ h)
  raised_by (some credentials) (some certificate) c s h = record {
    credentials = credentials;
    certificate = certificate;
    has_credentials = c;
    has_certificate = s;
    request = probe_with-raised lib net credentials certificate base_port e h;
  }

  -- Once the settings files are read, an exception that leaves the probe is raised by one of its
  -- own two requests: the one over plain HTTP to the base port, or, after an answer to that one,
  -- the one over TLS to the port that the answer names, with the certificate and the credentials
  -- of the workspace.
  pub probe_pair_state-raised :
      probe_pair_state lib net files base_port authority allowed ≡ raised e
      → HasRaised lib net files base_port authority allowed e
  unfolding probe_pair_state
  probe_pair_state-raised h = raised_by _ _ refl refl h

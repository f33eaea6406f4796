-- ===== src/Moonlight/Hosts/Choice.antt =====
-- Which of the certificates the workspace gives for a host.
use relay_inner_display_scri.Base.{
  ℕ, ◌≡◌, ◌∙◌, refl, String, Bool, Option, none, List, [], ◌∷◌, if◌then◌else◌, keep_if, true, false,
  some,
}
use relay_inner_display_scri.Moonlight.{Library, normalize_host_value}
use relay_inner_display_scri.Moonlight.Settings.{Record}
use relay_inner_display_scri.Moonlight.Hosts.{
  record_matches_host, certificate_of, certificate_in, after_record, server_certificate,
  or_fallback,
}

-- the certificate of the first record that has one
abbrev pub first_certificate : Library → List Record → Option String
first_certificate lib [] = none
first_certificate lib (r ∷ rest) = or_fallback (certificate_of lib r) (first_certificate lib rest)

-- the records that stand for the host
abbrev pub matching : Library → String → ℕ → List Record → List Record
matching lib host port = keep_if (λ (r : Record). record_matches_host lib r host port)

-- the certificate, where it may be used
abbrev pub when : Bool → Option String → Option String
when allowed c = if allowed then c else none

first_certificate-if :
    (lib : Library) (r : Record) (rest : List Record) (is_match : Bool)
    → first_certificate lib (if is_match then r ∷ rest else rest) ≡ (
        if is_match
        then or_fallback (certificate_of lib r) (first_certificate lib rest)
        else first_certificate lib rest)
first_certificate-if lib r rest true = refl
first_certificate-if lib r rest false = refl

-- one record, whatever the search gives after it
after_record_lem :
    (c matched first fallback : Option String) (is_match allowed : Bool)
    (later : Option String → Option String)
    → ((f : Option String) → later f ≡ or_fallback matched (when allowed (or_fallback f first)))
    → after_record c is_match fallback later
      ≡ or_fallback
          (if is_match then or_fallback c matched else matched)
          (when allowed (or_fallback fallback (or_fallback c first)))
after_record_lem none matched first fallback true allowed later ih = ih fallback
after_record_lem none matched first fallback false allowed later ih = ih fallback
after_record_lem (some c) matched first fallback true allowed later ih = refl
after_record_lem (some c) matched first none false allowed later ih = ih (some c)
after_record_lem (some c) matched first (some f) false allowed later ih = ih (some f)

certificate_in-first :
    (lib : Library) (host : String) (port : ℕ) (allowed : Bool) (fallback : Option String)
    (records : List Record)
    → certificate_in lib host port allowed fallback records
      ≡ or_fallback
          (first_certificate lib (matching lib host port records))
          (when allowed (or_fallback fallback (first_certificate lib records)))
unfolding certificate_in
certificate_in-first lib host port allowed none [] = refl
certificate_in-first lib host port allowed (some f) [] = refl
certificate_in-first lib host port allowed fallback (r ∷ rest) =
    after_record_lem (certificate_of lib r) (first_certificate lib (matching lib host port rest))
      (first_certificate lib rest) fallback (record_matches_host lib r host port) allowed _
      (λ f. certificate_in-first lib host port allowed f rest)
    ∙ rw (
        first_certificate-if lib r (matching lib host port rest)
          (record_matches_host lib r host port))

-- The certificate for a host is that of the first record with one among the records that stand
-- for the host, and where none of those has one, that of the first record with one, if any
-- paired host is allowed.
pub server_certificate-first :
    (lib : Library) (records : List Record) (authority : String) (port : ℕ) (allowed : Bool)
    → server_certificate lib records authority port allowed
      ≡ or_fallback
          (first_certificate lib (matching lib (normalize_host_value lib authority) port records))
          (when allowed (first_certificate lib records))
unfolding server_certificate
server_certificate-first lib records authority port allowed =
    certificate_in-first lib (normalize_host_value lib authority) port allowed none records

-- ===== src/Moonlight/Hosts/Ports.antt =====
-- A host with a port of its own, against the addresses of the records, which have none.
use Prim.Native.Char.{code}
use relay_inner_display_scri.Base.{
  ℕ, ◌≡◌, refl, String, Bool, true, false, none, List, [], ◌∷◌, if◌then◌else◌, ◌==◌, eqb, not, ◌&&◌,
  eq_iff, is_empty,
}
use relay_inner_display_scri.Moonlight.{Library, normalize_host_value}
use relay_inner_display_scri.Moonlight.Settings.{Record, field_of}
use relay_inner_display_scri.Moonlight.Hosts.{
  record_matches_host, address_matches, server_certificate,
}
use relay_inner_display_scri.Moonlight.Hosts.Choice.{server_certificate-first, matching}

unfoldable pub has_colon : String → Bool
has_colon String.[] = false
has_colon (String.◌∷◌ c s) = let rest = has_colon s in if eqb (code c) b':' then true else rest

-- a field that holds a name or an IPv4 address, or nothing
abbrev pub IsPlain : Library → Record → String → Type 0
IsPlain lib r field = has_colon (normalize_host_value lib (field_of r field)) ≡ false

-- all that a record says of its host is plain
pub record HasPlainHost (lib : Library) (r : Record) : Type 0 where
  pub hostname : IsPlain lib r "hostname"
  pub manual : IsPlain lib r "manualaddress"
  pub local : IsPlain lib r "localaddress"
  pub remote : IsPlain lib r "remoteaddress"
  pub ipv6 : IsPlain lib r "ipv6address"

abbrev pub AllPlain : Library → List Record → Type 0
AllPlain lib [] = Unit {0}
AllPlain lib (r ∷ rest) = HasPlainHost lib r × AllPlain lib rest

never : (a b : Bool) → (b ≡ true → ⊥) → (a && b) ≡ false
never false b differ = refl
never true false differ = refl
never true true differ = elim (differ refl) [ ]

plain_differs :
    (x y : String) → has_colon x ≡ false → has_colon y ≡ true → (not (is_empty x) && x == y) ≡ false
plain_differs x y p q = never (not (is_empty x)) (x == y) (λ h. cc ((eq_iff x y).0 h))

plain-record_matches_host :
    (lib : Library) (r : Record) (host : String) (port : ℕ)
    → has_colon host ≡ true
    → HasPlainHost lib r
    → record_matches_host lib r host port ≡ false
unfolding record_matches_host address_matches
plain-record_matches_host lib r host port colon plain = rw (
  plain_differs _ host plain.hostname colon,
  plain_differs _ host plain.manual colon,
  plain_differs _ host plain.local colon,
  plain_differs _ host plain.remote colon,
  plain_differs _ host plain.ipv6 colon,
)

matching-plain :
    (lib : Library) (host : String) (port : ℕ) (records : List Record)
    → has_colon host ≡ true
    → AllPlain lib records
    → matching lib host port records ≡ []
matching-plain lib host port [] colon all = refl
matching-plain lib host port (r ∷ rest) colon (plain, all) =
    rw (plain-record_matches_host lib r host port colon plain)
      (matching-plain lib host port rest colon all)

-- If the host authority has a colon, as it has with a port of its own, and no record has one in
-- its host name or an address, then there is no certificate for that host, unless any paired
-- host is allowed; the port in the record does not matter.
pub port_hides_records :
    (lib : Library) (records : List Record) (authority : String) (port : ℕ)
    → has_colon (normalize_host_value lib authority) ≡ true
    → AllPlain lib records
    → server_certificate lib records authority port false ≡ none
port_hides_records lib records authority port colon all = rw (
  server_certificate-first lib records authority port false,
  matching-plain lib (normalize_host_value lib authority) port records colon all,
)

-- ===== src/Proxmox/Vnc/Endpoints.antt =====
-- What the parser and the validation of a VNC endpoint promise.
use Prim.Native.Char.{Char, code}
use Prim.Native.String.{◌++◌ as ◌<>◌}
use package.text.Mathlib.TextLemmas.{nil-append, cons-append, append-nil}
use package.text.Mathlib.TextEquality.{eq_iff}
use relay_inner_display_scri.Base.{
  ℕ, ◌<◌, ◌≡◌, refl, ◌∙◌, ap, String, Bool, true, false, not, Option, none, some, [], ◌∷◌, eqb,
  is_empty, show_ℕ, one_of, concat, arith,
}
use relay_inner_display_scri.Exec.{ok}
use relay_inner_display_scri.Exec.Results.{◌>>=◌}
use relay_inner_display_scri.Decimal.Prints.{
  AsciiDigits, all_chars, all_chars-imp, all_digits-show, is_digit, parse_int-show,
}
use relay_inner_display_scri.Proxmox.{Client}
use relay_inner_display_scri.Proxmox.Vnc.{
  VncEndpoint, before_comma, rsplit_colon, parse_vnc_endpoint, loopback_hosts,
  normalize_loopback_host, read_vnc_endpoint, validate_vnc_configuration,
}

abbrev pub is_not : ℕ → Char → Bool
is_not n c = not (eqb (code c) n)

before_comma-append :
    (s t : String) → all_chars (is_not b',') s ≡ true → before_comma (s <> t) ≡ s <> before_comma t
unfolding before_comma all_chars
before_comma-append String.[] t h = rw (nil-append, nil-append)
before_comma-append (String.◌∷◌ c s) t h =
    rw (cons-append, cons-append) (ground (arith, before_comma-append s t (ground (arith, h))))

rsplit_colon-none : (s : String) → all_chars (is_not b':') s ≡ true → rsplit_colon s ≡ none
unfolding rsplit_colon all_chars
rsplit_colon-none String.[] h = refl
rsplit_colon-none (String.◌∷◌ c s) h = ground (arith, rsplit_colon-none s (ground (arith, h)))

rsplit_colon-append :
    (host display : String)
    → all_chars (is_not b':') display ≡ true
    → rsplit_colon (host <> String.◌∷◌ ":" display) ≡ some (host, display)
unfolding rsplit_colon
rsplit_colon-append String.[] display h =
    rw nil-append (rw (rsplit_colon, rsplit_colon-none display h))
rsplit_colon-append (String.◌∷◌ c host) display h =
    rw (cons-append, rsplit_colon, rsplit_colon-append host display h)

-- what may follow the endpoint
abbrev pub options : Option String → String
options none = ""
options (some o) = String.◌∷◌ "," o

before_comma-options : (o : Option String) → before_comma (options o) ≡ ""
unfolding before_comma
before_comma-options none = refl
before_comma-options (some o) = refl

-- as `endpoint_text` prints
abbrev pub endpoint_text : VncEndpoint → Option String → String
endpoint_text e o = concat (e.bind_host ∷ ":" ∷ show_ℕ e.display_number ∷ options o ∷ [])

digit_is_not_comma : (m : ℕ) → all_chars (is_not b',') (show_ℕ m) ≡ true
digit_is_not_comma m =
    all_chars-imp is_digit (is_not b',') (show_ℕ m) (λ c e. ground arith) (all_digits-show m)

digit_is_not_colon : (m : ℕ) → all_chars (is_not b':') (show_ℕ m) ≡ true
digit_is_not_colon m =
    all_chars-imp is_digit (is_not b':') (show_ℕ m) (λ c e. ground arith) (all_digits-show m)

colon-append : (t : String) → ":" <> t ≡ String.◌∷◌ ":" t
colon-append t = cons-append ":" "" t ∙ ap (String.◌∷◌ ":") (nil-append t)

cut-endpoint_text :
    (e : VncEndpoint) (o : Option String)
    → all_chars (is_not b',') e.bind_host ≡ true
    → before_comma (endpoint_text e o) ≡ e.bind_host <> String.◌∷◌ ":" (show_ℕ e.display_number)
unfolding before_comma
cut-endpoint_text e o no_comma =
    let shown = show_ℕ e.display_number in
    rw (append-nil, colon-append)
      (before_comma-append e.bind_host (String.◌∷◌ ":" (shown <> options o)) no_comma
        ∙ ap (λ t. e.bind_host <> String.◌∷◌ ":" t)
            (before_comma-append shown (options o) (digit_is_not_comma e.display_number)
              ∙ rw (before_comma-options, append-nil)))

-- The endpoint that is printed as host, colon and display number, with or without options after
-- a comma, is read back, if the host is not empty and has no comma and the display number is
-- below 65536; the value of an ASCII digit is as documented.
pub parse_vnc_endpoint-text :
    (dv : Char → Option ℕ) (e : VncEndpoint) (o : Option String)
    → AsciiDigits dv
    → is_empty e.bind_host ≡ false
    → all_chars (is_not b',') e.bind_host ≡ true
    → e.display_number < 65536
    → parse_vnc_endpoint dv (endpoint_text e o) ≡ ok e
unfolding parse_vnc_endpoint
parse_vnc_endpoint-text dv e o ascii filled no_comma small = rw (
  cut-endpoint_text e o no_comma,
  rsplit_colon-append e.bind_host (show_ℕ e.display_number) (digit_is_not_colon e.display_number),
  filled,
  parse_int-show dv e.display_number ascii small,
)

-- If the VNC configuration of a VM validates, then the endpoint is the one that the VM
-- configuration has, its display number is the configured one, and both hosts are loopback
-- hosts.
pub validated_endpoint :
    (client : Client) (vmid : ℕ) (bind_host : String) (display_number : ℕ) (e : VncEndpoint)
    → validate_vnc_configuration client vmid bind_host display_number ≡ ok e
    → (read_vnc_endpoint client vmid ≡ ok e)
      × (e.display_number ≡ display_number)
      × (one_of e.bind_host loopback_hosts ≡ true)
      × (one_of bind_host loopback_hosts ≡ true)
unfolding validate_vnc_configuration normalize_loopback_host ◌>>=◌
validated_endpoint client vmid bind_host display_number e h = (
  ground (arith, h),
  ground (arith, h),
  ground (arith, h),
  ground
      (arith, h, eq_iff (normalize_loopback_host e.bind_host) (normalize_loopback_host bind_host)),
)

-- ===== src/Proxmox/Spice/Local.antt =====
-- Which proxy the written SPICE configuration names.
use mathlib.Core.Path.{subst}
use relay_inner_display_scri.Base.{
  ℕ, ◌≡◌, refl, ◌⊎◌, inl, inr, String, Bool, true, false, not, ◌&&◌, ◌||◌, Option, none, some, List,
  [], ◌∷◌, ◌==◌, concat, arith, eq_iff, Bool-cases, is_empty,
}
use relay_inner_display_scri.Decimal.Prints.{all_chars, is_digit, all_digits-show, not_empty-show}
use relay_inner_display_scri.Exec.{Outcome, ok, raised}
use relay_inner_display_scri.Exec.Results.{◌>>=◌}
use relay_inner_display_scri.Proxmox.{Client}
use relay_inner_display_scri.Proxmox.Spice.{Entry, shown_port, written_value, written_entries}

-- a decimal number, or what stands for no port
abbrev pub is_port_text : String → Bool
is_port_text port = port == "None" || (not (is_empty port) && all_chars is_digit port)

-- nothing but a port follows the loopback address
abbrev pub IsLoopbackUrl : String → Type 0
IsLoopbackUrl url =
    (port : String) × (url ≡ concat ("http://127.0.0.1:" ∷ port ∷ [])) × (is_port_text port ≡ true)

-- a written entry against the one of the configuration
abbrev pub IsLocal : Entry → Entry → Type 0
IsLocal (key, value) (written_key, written) =
    (written_key ≡ key)
    × (((key ≡ "proxy") × IsLoopbackUrl written) ⊎ (((key == "proxy") ≡ false) × (written ≡ value)))

-- entry by entry
abbrev pub AllLocal : List Entry → List Entry → Type 0
AllLocal [] [] = Unit
AllLocal (e ∷ es) (f ∷ fs) = IsLocal e f × AllLocal es fs
AllLocal _ _ = ⊥

shown_port-is_port_text : (port : Option ℕ) → is_port_text (shown_port port) ≡ true
shown_port-is_port_text none = refl
shown_port-is_port_text (some n) = ground (arith, not_empty-show n, all_digits-show n)

module _ (client : Client) where
  url-IsLocal :
      (key value : String) (port : Outcome (Option ℕ)) (f : Entry)
      → key ≡ "proxy"
      → (port >>= λ p. ok (key, concat ("http://127.0.0.1:" ∷ shown_port p ∷ []))) ≡ ok f
      → IsLocal (key, value) f
  unfolding ◌>>=◌
  url-IsLocal key value (raised x) f proxy h = let impossible : ⊥ = cc h in elim impossible [ ]
  url-IsLocal key value (ok p) (k, v) proxy h =
      (ground (arith, h), inl (proxy, (shown_port p, ground (arith, h), shown_port-is_port_text p)))

  written_value-IsLocal : (e f : Entry) → written_value client e ≡ ok f → IsLocal e f
  unfolding written_value
  written_value-IsLocal (key, value) (k, v) h = elim (Bool-cases (key == "proxy")) [
    | inl e ↦
        url-IsLocal key value (client.url_port value) (k, v) ((eq_iff key "proxy").0 e) (rw e at h)
    | inr e ↦ (ground (arith, rw e at h), inr (e, ground (arith, rw e at h)))
  ]

  chain-AllLocal :
      (e : Entry) (es : List Entry) (m : Outcome Entry) (later : Outcome (List Entry))
      (fs : List Entry)
      → ((f : Entry) → m ≡ ok f → IsLocal e f)
      → ((gs : List Entry) → later ≡ ok gs → AllLocal es gs)
      → (do entry ← m; rest ← later; ok (entry ∷ rest)) ≡ ok fs
      → AllLocal (e ∷ es) fs
  unfolding ◌>>=◌
  chain-AllLocal e es (raised x) later fs k l h = let impossible : ⊥ = cc h in elim impossible [ ]
  chain-AllLocal e es (ok f) (raised x) fs k l h = let impossible : ⊥ = cc h in elim impossible [ ]
  chain-AllLocal e es (ok f) (ok gs) fs k l h =
      let same : f ∷ gs ≡ fs = cc h in subst (AllLocal (e ∷ es)) same (k f refl, l gs refl)

  -- If no port of a proxy raises, the written entries are those of the SPICE configuration, one
  -- by one: each proxy is written as `http://127.0.0.1:` followed by a decimal number, or by
  -- `None`, and nothing else, whatever the configuration says, and each other entry is
  -- unchanged.
  pub written_entries-AllLocal :
      (es fs : List Entry) → written_entries client es ≡ ok fs → AllLocal es fs
  unfolding written_entries
  written_entries-AllLocal [] fs h = let same : [] ≡ fs = cc h in subst (AllLocal []) same tt
  written_entries-AllLocal (e ∷ es) fs h =
      chain-AllLocal e es (written_value client e) (written_entries client es) fs
        (written_value-IsLocal e) (written_entries-AllLocal es) h

-- ===== src/Daemon/Entry.antt =====
-- The entry of the daemon: the configuration that `run` loads or falls back to, and what that
-- configuration means for the loop and for the launch of a console.
use relay_inner_display_scri.Base.{
  ℕ, ◌≡◌, refl, ◌∙◌, ◌⊎◌, inl, inr, true, String, Option, none, some, is_some, List, ◌==◌,
  if◌then◌else◌, arith,
}
use relay_inner_display_scri.Exec.{Reason, invalid_config, raise}
use relay_inner_display_scri.Config.{
  AppConfig, ConsoleSpiceConfig, ConsoleVncConfig, ConsoleLookingGlassConfig,
  ConsoleMoonlightConfig,
}
use relay_inner_display_scri.Config.Checked.{Checked, accepted, refused, failed}
use relay_inner_display_scri.Config.Checked.Yields.{
  Yields, Yields-accepted, Yields-refused, Yields-failed,
}
use relay_inner_display_scri.Config.Toml.{Table}
use relay_inner_display_scri.Config.Platform.{Platform}
use relay_inner_display_scri.Config.Parse.{parse_config}
use relay_inner_display_scri.Config.Load.{
  Loaded, toml, file_not_found, decode_error, unreadable, load_config, build_fallback_config,
}
use relay_inner_display_scri.Config.Sound.{VncSound, MoonlightSound, AllVnc, AllMoonlight}
use relay_inner_display_scri.Config.Sound.Consoles.{backend_cases}
use relay_inner_display_scri.Config.Sound.Whole.{parse_config-IsSound}
use relay_inner_display_scri.Services.{Services}
use relay_inner_display_scri.Daemon.Launch.{
  prepare_console_launch, spice_vv_path, launch_spice, launch_vnc, launch_vnc_of,
  launch_looking_glass, launch_looking_glass_of, launch_moonlight,
}
use relay_inner_display_scri.Daemon.Pairing.{with_moonlight, no_moonlight_config}
use relay_inner_display_scri.Daemon.Loop.{Round, run}
use relay_inner_display_scri.Daemon.Validity.{ConfigSound, IsValid}
use relay_inner_display_scri.Daemon.Validity.Loop.{run-IsValid}

-- `try: load_config(…) except ConfigError`, with the startup error
abbrev pub or_fallback : Checked AppConfig → Checked (AppConfig × Option Reason)
or_fallback (accepted c) = accepted (c, none)
or_fallback (refused r) = accepted (build_fallback_config, some (invalid_config r))
or_fallback (failed r) = failed r

unfoldable pub configured : Platform → String → Loaded → Checked (AppConfig × Option Reason)
configured lib path loaded = or_fallback (load_config lib path loaded)

Yields-load_config :
    (lib : Platform) (path : String) (loaded : Loaded)
    → Yields ConfigSound (load_config lib path loaded)
unfolding load_config
Yields-load_config lib path (toml raw) = record {
  at = λ c e. record { delays_ordered = (parse_config-IsSound lib raw c e).policy.delays_ordered };
}
Yields-load_config lib path file_not_found = Yields-refused _
Yields-load_config lib path (decode_error _) = Yields-refused _
Yields-load_config lib path (unreadable r) = Yields-failed r

fallback-ConfigSound : ConfigSound build_fallback_config
unfolding build_fallback_config
fallback-ConfigSound = record { delays_ordered = omega arith }

Yields-or_fallback :
    (m : Checked AppConfig) → Yields ConfigSound m → Yields (λ p. ConfigSound p.0) (or_fallback m)
Yields-or_fallback (accepted c) y = Yields-accepted _ (y.at c refl)
Yields-or_fallback (refused r) y = Yields-accepted _ fallback-ConfigSound
Yields-or_fallback (failed r) y = Yields-failed r

-- Whatever the configuration file holds, if the daemon gets a configuration, read or the
-- fallback, then the daemon that `run` builds and drives with it is valid, whatever the outside
-- answers and the session sends.
pub configured-run-IsValid :
    (lib : Platform) (path : String) (loaded : Loaded) (c : AppConfig) (error : Option Reason)
    (w : Services) (now : ℕ) (rs : List Round)
    → configured lib path loaded ≡ accepted (c, error)
    → IsValid c (run w c error now rs).1
unfolding configured
configured-run-IsValid lib path loaded c error w now rs e =
    run-IsValid w c error now rs
      ((Yields-or_fallback _ (Yields-load_config lib path loaded)).at (c, error) e)

-- the branch that a test of the backend takes
module _ {A : Type 0} (b : String) (p q r s t : A) where
  abbrev by_backend : A
  by_backend =
      if b == "spice"
      then p
      else if b == "vnc"
      then q
      else if b == "looking-glass"
      then r
      else if b == "moonlight"
      then s
      else t

  branch_spice : b ≡ "spice" → by_backend ≡ p
  branch_spice e = rw e

  branch_vnc : b ≡ "vnc" → by_backend ≡ q
  branch_vnc e = rw e

  branch_looking_glass : b ≡ "looking-glass" → by_backend ≡ r
  branch_looking_glass e = rw e

  branch_moonlight : b ≡ "moonlight" → by_backend ≡ s
  branch_moonlight e = rw e

-- the launch of the configured backend, with the table that the configuration has for it
abbrev pub IsLaunched : Platform → Services → AppConfig → Type 0
IsLaunched lib w c =
    ((c.target.console_backend ≡ "spice")
      × ((s : ConsoleSpiceConfig) × (c.console.spice ≡ some s)
          × (spice_vv_path c ≡ s.vv_path)
          × (prepare_console_launch w c ≡ launch_spice w c)))
    ⊎ (((c.target.console_backend ≡ "vnc")
          × ((v : ConsoleVncConfig) × (c.console.vnc ≡ some v)
              × VncSound v
              × (prepare_console_launch w c ≡ launch_vnc w c v)))
        ⊎ (((c.target.console_backend ≡ "looking-glass")
              × ((l : ConsoleLookingGlassConfig) × (c.console.looking_glass ≡ some l)
                  × (prepare_console_launch w c ≡ launch_looking_glass w c l)))
            ⊎ ((c.target.console_backend ≡ "moonlight")
                × ((m : ConsoleMoonlightConfig) × (c.console.moonlight ≡ some m)
                    × MoonlightSound lib m
                    × (prepare_console_launch w c ≡ launch_moonlight w c m)))))

module _ (lib : Platform) (w : Services) (c : AppConfig) where
  -- the file of the table, and what stands in for it where there is none
  file_of_spice :
      (o : Option ConsoleSpiceConfig) (other : String)
      → is_some o ≡ true
      → (s : ConsoleSpiceConfig) × (o ≡ some s)
        × (◌≡◌ {A = String} (elim o [ none ↦ other | some t ↦ t.vv_path ]) s.vv_path)
  file_of_spice none other there = let impossible : ⊥ = ground arith in elim impossible [ ]
  file_of_spice (some s) other there = (s, refl, refl)

  launch_of_vnc :
      (o : Option ConsoleVncConfig)
      → is_some o ≡ true
      → AllVnc o
      → (v : ConsoleVncConfig) × (o ≡ some v)
        × VncSound v
        × (launch_vnc_of w c o ≡ launch_vnc w c v)
  unfolding launch_vnc_of
  launch_of_vnc none there sound = let impossible : ⊥ = ground arith in elim impossible [ ]
  launch_of_vnc (some v) there sound = (v, refl, sound, refl)

  launch_of_looking_glass :
      (o : Option ConsoleLookingGlassConfig)
      → is_some o ≡ true
      → (l : ConsoleLookingGlassConfig) × (o ≡ some l)
        × (launch_looking_glass_of w c o ≡ launch_looking_glass w c l)
  unfolding launch_looking_glass_of
  launch_of_looking_glass none there = let impossible : ⊥ = ground arith in elim impossible [ ]
  launch_of_looking_glass (some l) there = (l, refl, refl)

  launch_of_moonlight :
      (o : Option ConsoleMoonlightConfig)
      → is_some o ≡ true
      → AllMoonlight lib o
      → (m : ConsoleMoonlightConfig) × (o ≡ some m)
        × MoonlightSound lib m
        × (with_moonlight o (launch_moonlight w c) (raise no_moonlight_config)
            ≡ launch_moonlight w c m)
  launch_of_moonlight none there sound = let impossible : ⊥ = ground arith in elim impossible [ ]
  launch_of_moonlight (some m) there sound = (m, refl, sound, refl)

  -- With a configuration that the parser accepts, the backend is one of the four, the
  -- configuration has the table of that backend, and the preparation of a console is the launch
  -- of that backend with that table: for SPICE with the file of the table, for VNC and Moonlight
  -- with a table that is sound.
  pub parse_config-IsLaunched :
      (raw : Table) → parse_config lib raw ≡ accepted c → IsLaunched lib w c
  unfolding prepare_console_launch spice_vv_path
  parse_config-IsLaunched raw e =
      let sound = parse_config-IsSound lib raw c e in
      let console = sound.console in
      elim (backend_cases c.target.console_backend sound.target.backend_known) [
        | inl is_spice ↦
            let (s, found, file) =
              file_of_spice c.console.spice c.runtime.spice_vv_path
                (console.spice_table ∙ rw is_spice) in
            inl (is_spice, (s, found, file, branch_spice _ _ _ _ _ _ is_spice))
        | inr (inl is_vnc) ↦
            let (v, found, sound', e') =
              launch_of_vnc c.console.vnc (console.vnc_table ∙ rw is_vnc) console.vnc_sound in
            inr (inl (is_vnc, (v, found, sound', branch_vnc _ _ _ _ _ _ is_vnc ∙ e')))
        | inr (inr (inl is_glass)) ↦
            let (l, found, e') =
              launch_of_looking_glass c.console.looking_glass
                (console.looking_glass_table ∙ rw is_glass) in
            inr (inr (inl (is_glass, (l, found, branch_looking_glass _ _ _ _ _ _ is_glass ∙ e'))))
        | inr (inr (inr is_moonlight)) ↦
            let (m, found, sound', e') =
              launch_of_moonlight c.console.moonlight (console.moonlight_table ∙ rw is_moonlight)
                console.moonlight_sound in
            inr (
              inr (
                inr (
                  is_moonlight,
                  (m, found, sound', branch_moonlight _ _ _ _ _ _ is_moonlight ∙ e'),
                )))
      ]

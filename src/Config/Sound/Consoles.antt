-- ===== src/Config/Sound/Consoles.antt =====
-- The `[console]` table of an accepted configuration.
use relay_inner_display_scri.Base.{
  ℕ, ◌+◌, ◌≤◌, ◌<◌, ◌≡◌, refl, String, true, ◌⊎◌, inl, inr, Option, none, some, is_some, ltb, List,
  one_of, arith, eq_iff, strip, eqb, ◌||◌,
}
use relay_inner_display_scri.Config.{Python, vnc_port, moonlight_refused}
use relay_inner_display_scri.Config.Checked.Yields.{
  Yields, Yields-accepted, Yields-bind, Yields-then, Yields-refuse_if, Yields-refuse_unless,
  Yields-refused,
}
use relay_inner_display_scri.Config.Toml.{
  Value, text_value, integer, boolean, table, other_value, Table, get,
}
use relay_inner_display_scri.Config.Moonlight.{
  is_hostname, require_moonlight_host, resolution_from, resolution_in, match_resolution,
  optional_moonlight_resolution,
}
use relay_inner_display_scri.Base.{pos}
use relay_inner_display_scri.Config.Platform.{Platform}
use relay_inner_display_scri.Config.Fields.{
  value_or, optional_port, require_vnc_display_number, max_port_number, max_vnc_display_number,
}
use relay_inner_display_scri.Config.Console.{
  Blocks, parse_spice, parse_vnc, parse_looking_glass, parse_moonlight_table, parse_moonlight,
  parse_backend, parse_console_config, supported_vnc_bind_hosts, supported_vnc_viewers,
}
use relay_inner_display_scri.Config.Parse.{supported_console_backends}
use relay_inner_display_scri.Config.Sound.{IsResolution, MoonlightSound, ConsoleSound}
use relay_inner_display_scri.Config.Sound.Tables.{Yields-positive_of, Yields-require_one_of}

Yields-optional_port :
    (t : Table) (key : String) (default : ℕ)
    → Yields (λ (n : ℕ). (0 < n) × (n ≤ 65535)) (optional_port t key default)
unfolding optional_port
Yields-optional_port t key default =
    Yields-bind _ _ (Yields-positive_of key (value_or (get t key) (integer (pos default))))
      λ n positive.
        Yields-bind _ _ (Yields-refuse_if (ltb max_port_number n) _ _)
          λ _ bounded. Yields-accepted n (positive, ground arith)

Yields-display_number :
    (t : Table) (key : String)
    → Yields (λ (n : ℕ). 5900 + n ≤ 65535) (require_vnc_display_number t key)
unfolding require_vnc_display_number
Yields-display_number t key = Yields-then _ _ λ n.
    Yields-bind _ _ (Yields-refuse_if (ltb max_vnc_display_number n) _ _)
      λ _ bounded. Yields-accepted n (ground arith)

Yields-parse_spice :
    (lib : Platform) (b : Blocks) (dir : String) (legacy : Option String)
    → Yields (ConsoleSound lib "spice") (parse_spice lib b dir legacy)
unfolding parse_spice
Yields-parse_spice lib b dir legacy = Yields-then _ _ λ _. Yields-then _ _ λ _. Yields-then _ _ λ _.
    Yields-then _ _ λ _. Yields-then _ _ λ path. Yields-accepted _ (record {
      spice_table = refl;
      vnc_table = refl;
      looking_glass_table = refl;
      moonlight_table = refl;
      vnc_sound = tt;
      moonlight_sound = tt;
    })

Yields-parse_vnc :
    (lib : Platform) (b : Blocks) (dir : String)
    → Yields (ConsoleSound lib "vnc") (parse_vnc lib b dir)
unfolding parse_vnc vnc_port
Yields-parse_vnc lib b dir = Yields-then _ _ λ _. Yields-then _ _ λ _. Yields-then _ _ λ _.
    Yields-then _ _ λ _. Yields-then _ _ λ host.
      Yields-bind _ _ (Yields-require_one_of host supported_vnc_bind_hosts _) λ _ host_local.
        Yields-bind _ _ (Yields-display_number b.vnc "display_number") λ number bounded.
          Yields-then _ _ λ viewer.
            Yields-bind _ _ (Yields-require_one_of viewer supported_vnc_viewers _) λ _ viewer_known.
              Yields-accepted _ (record {
                spice_table = refl;
                vnc_table = refl;
                looking_glass_table = refl;
                moonlight_table = refl;
                vnc_sound = record {
                  port_bounded = bounded;
                  host_local = host_local;
                  viewer_known = viewer_known;
                };
                moonlight_sound = tt;
              })

Yields-parse_looking_glass :
    (lib : Platform) (b : Blocks) (dir : String)
    → Yields (ConsoleSound lib "looking-glass") (parse_looking_glass lib b dir)
unfolding parse_looking_glass
Yields-parse_looking_glass lib b dir = Yields-then _ _ λ _. Yields-then _ _ λ _.
    Yields-then _ _ λ _. Yields-then _ _ λ _. Yields-then _ _ λ renderer. Yields-then _ _ λ _.
      Yields-then _ _ λ binary. Yields-then _ _ λ shm_file. Yields-then _ _ λ fullscreen.
        Yields-then _ _ λ screensaver. Yields-then _ _ λ spice_enabled. Yields-accepted _ (record {
          spice_table = refl;
          vnc_table = refl;
          looking_glass_table = refl;
          moonlight_table = refl;
          vnc_sound = tt;
          moonlight_sound = tt;
        })

Yields-moonlight_host :
    (py : Python) (t : Table) (key : String)
    → Yields
        (λ (host : String). (is_some (py.ip_version host) || is_hostname host) ≡ true)
        (require_moonlight_host py t key)
unfolding require_moonlight_host
Yields-moonlight_host py t key = Yields-then _ _ λ given. Yields-then _ _ λ _. Yields-then _ _ λ _.
    Yields-then _ _ λ _.
      Yields-bind _ _ (Yields-refuse_unless _ _ _) λ _ valid. Yields-accepted (strip given) valid

Yields-resolution_from :
    (lib : Platform) (key : String) (found : Option (List ℕ × List ℕ))
    → Yields IsResolution (resolution_from lib key found)
Yields-resolution_from lib key none = Yields-refused _
Yields-resolution_from lib key (some (ws, hs)) = Yields-then _ _ λ width. Yields-then _ _ λ height.
    Yields-bind _ _ (Yields-refuse_if (eqb width 0 || eqb height 0) _ _)
      λ _ positive. Yields-accepted _ (width, height, ground arith, ground arith, refl)

Yields-resolution_in :
    (lib : Platform) (key : String) (v : Option Value)
    → Yields IsResolution (resolution_in lib key v)
Yields-resolution_in lib key none = Yields-accepted _ tt
Yields-resolution_in lib key (some (text_value s)) =
    Yields-resolution_from lib key (match_resolution lib (strip s))
Yields-resolution_in lib key (some (integer _)) = Yields-refused _
Yields-resolution_in lib key (some (boolean _)) = Yields-refused _
Yields-resolution_in lib key (some (table _)) = Yields-refused _
Yields-resolution_in lib key (some other_value) = Yields-refused _

Yields-IsResolution :
    (lib : Platform) (t : Table) (key : String)
    → Yields IsResolution (optional_moonlight_resolution lib t key)
unfolding optional_moonlight_resolution
Yields-IsResolution lib t key = Yields-resolution_in lib key (get t key)

Yields-moonlight_table :
    (lib : Platform) (t : Table) → Yields (MoonlightSound lib) (parse_moonlight_table lib t)
unfolding parse_moonlight_table
Yields-moonlight_table lib t = Yields-then _ _ λ binary.
    Yields-bind _ _ (Yields-moonlight_host lib.python t "host") λ host valid.
      Yields-bind _ _ (Yields-optional_port t "base_port" _) λ port bounds. Yields-then _ _ λ app.
        Yields-then _ _ λ state_dir.
          Yields-bind _ _ (Yields-IsResolution lib t "resolution") λ resolution normal.
            Yields-then _ _ λ quit.
              Yields-bind _ _ (Yields-refuse_if (moonlight_refused lib.python _) _ _) λ _ allowed.
                Yields-accepted _ (record {
                  port_positive = bounds.0;
                  port_bounded = bounds.1;
                  resolution_normal = normal;
                  host_valid = valid;
                  not_refused = allowed;
                })

Yields-parse_moonlight :
    (lib : Platform) (b : Blocks) (dir : String)
    → Yields (ConsoleSound lib "moonlight") (parse_moonlight lib b "moonlight" dir)
unfolding parse_moonlight
Yields-parse_moonlight lib b dir = Yields-then _ _ λ _. Yields-then _ _ λ _. Yields-then _ _ λ _.
    Yields-then _ _ λ _. Yields-bind _ _ (Yields-moonlight_table lib b.moonlight) λ m sound.
      Yields-accepted _ (record {
        spice_table = refl;
        vnc_table = refl;
        looking_glass_table = refl;
        moonlight_table = refl;
        vnc_sound = tt;
        moonlight_sound = sound;
      })

-- A supported backend is one of four.
pub backend_cases :
    (backend : String)
    → one_of backend supported_console_backends ≡ true
    → (backend ≡ "spice")
      ⊎ ((backend ≡ "vnc") ⊎ ((backend ≡ "looking-glass") ⊎ (backend ≡ "moonlight")))
backend_cases backend known = ground (
  arith,
  eq_iff backend "spice",
  eq_iff backend "vnc",
  eq_iff backend "looking-glass",
  eq_iff backend "moonlight",
)

Yields-parse_backend :
    (lib : Platform) (b : Blocks) (backend dir : String) (legacy : Option String)
    → one_of backend supported_console_backends ≡ true
    → Yields (ConsoleSound lib backend) (parse_backend lib b backend dir legacy)
unfolding parse_backend
Yields-parse_backend lib b backend dir legacy known = elim (backend_cases backend known) [
  | inl e ↦ rw e (Yields-parse_spice lib b dir legacy)
  | inr (inl e) ↦ rw e (Yields-parse_vnc lib b dir)
  | inr (inr (inl e)) ↦ rw e (Yields-parse_looking_glass lib b dir)
  | inr (inr (inr e)) ↦ rw e (Yields-parse_moonlight lib b dir)
]

pub Yields-parse_console :
    (lib : Platform) (backend : String) (t : Table) (legacy : Option String)
    → one_of backend supported_console_backends ≡ true
    → Yields (ConsoleSound lib backend) (parse_console_config lib backend t legacy)
unfolding parse_console_config
Yields-parse_console lib backend t legacy known = Yields-then _ _ λ dir. Yields-then _ _ λ _.
    Yields-then _ _ λ spice. Yields-then _ _ λ vnc. Yields-then _ _ λ looking_glass.
      Yields-then _ _ λ moonlight. Yields-parse_backend lib _ backend dir legacy known

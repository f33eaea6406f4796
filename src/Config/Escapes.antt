-- ===== src/Config/Escapes.antt =====
-- Which exceptions leave the parser of the configuration beside `ConfigError`.
use relay_inner_display_scri.Base.{
  ℕ, ◌≡◌, refl, String, true, Option, none, some, List, one_of, inl, inr,
}
use relay_inner_display_scri.Exec.{Reason}
use relay_inner_display_scri.Config.{ConsoleConfig, Python}
use relay_inner_display_scri.Config.Checked.{Checked, failed}
use relay_inner_display_scri.Config.Checked.Fails.{
  FailsOnly, FailsOnly-failed, FailsOnly-accepted, FailsOnly-refused, FailsOnly-bind,
  FailsOnly-after, fails_rules,
}
use relay_inner_display_scri.Config.Toml.{
  Value, text_value, integer, boolean, table, other_value, Table, get,
}
use relay_inner_display_scri.Config.Platform.{Platform}
use relay_inner_display_scri.Config.Fields.Escapes.{field_rules}
use relay_inner_display_scri.Config.Moonlight.{
  int_limit, int_of, require_moonlight_host, resolution_from, resolution_in, match_resolution,
  optional_moonlight_resolution,
}
use relay_inner_display_scri.Config.Console.{
  Blocks, parse_spice, parse_vnc, parse_looking_glass, parse_moonlight_table, parse_moonlight,
  parse_backend, parse_console_config,
}
use relay_inner_display_scri.Config.Parse.{
  parse_target, parse_policy, parse_runtime, parse_input, parse_display_config, parse_kiosk_config,
  resolve_kiosk_compositor, backend_compositor, supported_console_backends, parse_config,
}
use relay_inner_display_scri.Config.Sound.Consoles.{backend_cases}
use relay_inner_display_scri.Config.Sound.Tables.{Yields-parse_target}

-- the ValueError of `int`
abbrev IsLimit : Reason → Type 0
IsLimit r = r ≡ int_limit

abbrev Safe : {A : Type 0} → Checked A → Type 0
Safe m = FailsOnly IsLimit m

Safe-int_of : (digits : List ℕ) → Safe (int_of digits)
unfolding int_of
Safe-int_of digits = search (fails_rules, FailsOnly-failed {P = IsLimit} int_limit refl)

Safe-moonlight_host :
    (py : Python) (t : Table) (key : String) → Safe (require_moonlight_host py t key)
unfolding require_moonlight_host
Safe-moonlight_host py t key = search field_rules depth 10

Safe-resolution :
    (lib : Platform) (t : Table) (key : String) → Safe (optional_moonlight_resolution lib t key)
unfolding optional_moonlight_resolution
Safe-resolution lib t key = in_value (get t key)
  where
    from : (found : Option (List ℕ × List ℕ)) → Safe (resolution_from lib key found)
    from none = FailsOnly-refused _
    from (some (ws, hs)) = search (fails_rules, Safe-int_of) depth 8

    in_value : (v : Option Value) → Safe (resolution_in lib key v)
    in_value none = FailsOnly-accepted _
    in_value (some (text_value s)) = from (match_resolution lib _)
    in_value (some (integer _)) = FailsOnly-refused _
    in_value (some (boolean _)) = FailsOnly-refused _
    in_value (some (table _)) = FailsOnly-refused _
    in_value (some other_value) = FailsOnly-refused _

module _ (lib : Platform) where
  Safe-parse_spice :
      (b : Blocks) (dir : String) (legacy : Option String) → Safe (parse_spice lib b dir legacy)
  unfolding parse_spice
  Safe-parse_spice b dir legacy = search field_rules depth 14

  Safe-parse_vnc : (b : Blocks) (dir : String) → Safe (parse_vnc lib b dir)
  unfolding parse_vnc
  Safe-parse_vnc b dir = search field_rules depth 14

  Safe-parse_looking_glass : (b : Blocks) (dir : String) → Safe (parse_looking_glass lib b dir)
  unfolding parse_looking_glass
  Safe-parse_looking_glass b dir = search field_rules depth 16

  Safe-moonlight_table : (t : Table) → Safe (parse_moonlight_table lib t)
  unfolding parse_moonlight_table
  Safe-moonlight_table t = search (field_rules, Safe-moonlight_host, Safe-resolution) depth 14

  Safe-parse_moonlight :
      (b : Blocks) (backend dir : String) → Safe (parse_moonlight lib b backend dir)
  unfolding parse_moonlight
  Safe-parse_moonlight b backend dir = search (field_rules, Safe-moonlight_table) depth 10

  Safe-parse_console :
      (backend : String) (t : Table) (legacy : Option String)
      → Safe (parse_console_config lib backend t legacy)
  unfolding parse_console_config parse_backend
  Safe-parse_console backend t legacy =
      search
        (
          field_rules, Safe-parse_spice, Safe-parse_vnc, Safe-parse_looking_glass,
          Safe-parse_moonlight,
        )
        depth 14

  Safe-parse_runtime :
      (t : Table) (legacy : Option String) (console : ConsoleConfig)
      → Safe (parse_runtime lib t legacy console)
  unfolding parse_runtime
  Safe-parse_runtime t legacy console = search field_rules depth 10

  Safe-parse_input : (t : Table) → Safe (parse_input lib t)
  unfolding parse_input
  Safe-parse_input t = search field_rules depth 8

Safe-parse_target : (t : Table) → Safe (parse_target t)
unfolding parse_target
Safe-parse_target t = search field_rules depth 10

Safe-parse_policy : (t : Table) → Safe (parse_policy t)
unfolding parse_policy
Safe-parse_policy t = search field_rules depth 20

Safe-parse_display : (t : Table) → Safe (parse_display_config t)
unfolding parse_display_config
Safe-parse_display t = search field_rules depth 10

Safe-backend_compositor :
    (backend : String)
    → one_of backend supported_console_backends ≡ true
    → Safe (backend_compositor backend)
unfolding backend_compositor
Safe-backend_compositor backend known = elim (backend_cases backend known) [
  | inl e ↦ rw e (FailsOnly-accepted _)
  | inr (inl e) ↦ rw e (FailsOnly-accepted _)
  | inr (inr (inl e)) ↦ rw e (FailsOnly-accepted _)
  | inr (inr (inr e)) ↦ rw e (FailsOnly-accepted _)
]

Safe-resolve :
    (backend compositor : String)
    → one_of backend supported_console_backends ≡ true
    → Safe (resolve_kiosk_compositor backend compositor)
unfolding resolve_kiosk_compositor
Safe-resolve backend compositor known =
    FailsOnly-bind _ _ (Safe-backend_compositor backend known) λ s. search fails_rules

Safe-parse_kiosk :
    (backend : String) (t : Table)
    → one_of backend supported_console_backends ≡ true
    → Safe (parse_kiosk_config backend t)
unfolding parse_kiosk_config
Safe-parse_kiosk backend t known = FailsOnly-bind _ _ (search field_rules) λ _.
    FailsOnly-bind _ _ (search field_rules) λ compositor.
      FailsOnly-bind _ _ (search field_rules)
        λ _. FailsOnly-bind _ _ (Safe-resolve backend compositor known) λ s. search fails_rules

Safe-parse_config : (lib : Platform) (raw : Table) → Safe (parse_config lib raw)
unfolding parse_config
Safe-parse_config lib raw = FailsOnly-bind _ _ (search field_rules) λ target_table.
    FailsOnly-bind _ _ (search field_rules) λ runtime_table.
      FailsOnly-bind _ _ (search field_rules) λ policy_table.
        FailsOnly-bind _ _ (search field_rules) λ display_table.
          FailsOnly-bind _ _ (search field_rules) λ kiosk_table.
            FailsOnly-bind _ _ (search field_rules) λ input_table.
              FailsOnly-bind _ _ (search field_rules) λ console_table.
                FailsOnly-after _ _ (Safe-parse_target target_table) λ target e.
                  let known = ((Yields-parse_target target_table).at target e).backend_known in
                  FailsOnly-bind _ _ (search field_rules) λ legacy.
                    FailsOnly-bind _ _ (search field_rules) λ _.
                      FailsOnly-bind _ _
                        (Safe-parse_console lib target.console_backend console_table legacy)
                        λ console.
                          FailsOnly-bind _ _ (Safe-parse_runtime lib runtime_table legacy console)
                            λ runtime.
                              FailsOnly-bind _ _ (Safe-parse_display display_table) λ display.
                                FailsOnly-bind _ _
                                  (Safe-parse_kiosk target.console_backend kiosk_table known)
                                  λ kiosk.
                                    FailsOnly-bind _ _ (Safe-parse_input lib input_table) λ input.
                                      FailsOnly-bind _ _ (Safe-parse_policy policy_table)
                                        λ policy. FailsOnly-accepted _

-- Whatever the tables of the file are, an exception other than ConfigError that leaves the
-- parser is the ValueError of `int` for a resolution with too many digits; so the lookups by
-- backend never fail.
pub parse_config-failures :
    (lib : Platform) (raw : Table) (r : Reason) → parse_config lib raw ≡ failed r → r ≡ int_limit
parse_config-failures lib raw r e = (Safe-parse_config lib raw).at r e

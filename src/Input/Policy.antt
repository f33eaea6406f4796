-- ===== src/Input/Policy.antt =====
-- Which setting of logind decides, and what a poll counts.
use relay_inner_display_scri.Base.{
  ℕ, suc, ◌+◌, ◌≡◌, ◌↔◌, refl, ◌∙◌, ap, String, Bool, true, false, Option, none, some, List, [],
  ◌∷◌, ◌++◌, length, if◌then◌else◌, ◌==◌, arith, eq_iff, keep_if,
}
use relay_inner_display_scri.Exec.{Exn, Outcome, ok, raised}
use relay_inner_display_scri.Input.{
  HostFiles, read_handle_power_key, read_lines, or_earlier, effective_in, iter_config_paths,
  validate, content_of, is_section,
}

module _ (files : HostFiles) where
  effective-append :
      (ps qs : List String) (value : Option String)
      → effective_in files value (ps ++ qs) ≡ effective_in files (effective_in files value ps) qs
  unfolding effective_in
  effective-append [] qs value = refl
  effective-append (p ∷ ps) qs value =
      effective-append ps qs (or_earlier (read_handle_power_key files p) value)

  effective-last :
      (earlier : List String) (last : String) (value : String)
      → read_handle_power_key files last ≡ some value
      → effective_in files none (earlier ++ last ∷ []) ≡ some value
  unfolding effective_in
  effective-last earlier last value sets = effective-append earlier (last ∷ []) none ∙ rw sets

passed_test :
    (b : Bool) (e : Exn)
    → ◌≡◌ {A = Outcome (Unit {0})} (if b then ok tt else raised e) (ok tt)
    → b ≡ true
passed_test true e h = refl
passed_test false e h = cc h

if_both : (b : Bool) (x y z : Option String) → x ≡ z → y ≡ z → (if b then x else y) ≡ z
if_both true x y z p q = p
if_both false x y z p q = q

-- If the last of the files that are read sets the key, then the policy is accepted exactly where
-- the value there is `ignore`, whatever the other files say.
pub validate-last_file :
    (files : HostFiles) (main_configs dropin_dirs earlier : List String) (last value : String)
    → iter_config_paths files main_configs dropin_dirs ≡ earlier ++ last ∷ []
    → read_handle_power_key files last ≡ some value
    → (validate files main_configs dropin_dirs ≡ ok tt) ↔ (value ≡ "ignore")
unfolding validate
validate-last_file files main_configs dropin_dirs earlier last value paths sets =
    rw (paths, effective-last files earlier last value sets)
      (λ h. (eq_iff value "ignore").0 (passed_test (value == "ignore") _ h), λ e. rw e)

abbrev ignoring : List String
ignoring = "[Login]" ∷ "HandlePowerKey=ignore" ∷ []

read_lines-ignoring :
    (lines : List String) (in_login : Bool) (value : Option String)
    → read_lines in_login value (lines ++ ignoring) ≡ some "ignore"
unfolding read_lines relay_inner_display_scri.Base.strip
read_lines-ignoring [] in_login value = refl
read_lines-ignoring (line ∷ lines) in_login value =
    if_both (is_section (content_of line)) _ _ _ (read_lines-ignoring lines _ value)
      (read_lines-ignoring lines in_login _)

-- If the last of the files ends with the two lines that turn the power key off, then the policy
-- is accepted, whatever stands before them and in the other files.
pub trailing_ignore-validate :
    (files : HostFiles) (main_configs dropin_dirs earlier : List String) (last : String)
    (lines : List String)
    → iter_config_paths files main_configs dropin_dirs ≡ earlier ++ last ∷ []
    → files.lines_of last ≡ lines ++ ignoring
    → validate files main_configs dropin_dirs ≡ ok tt
unfolding read_handle_power_key
trailing_ignore-validate files main_configs dropin_dirs earlier last lines paths ends =
    (validate-last_file files main_configs dropin_dirs earlier last "ignore" paths
        (rw ends (read_lines-ignoring lines false none))).1
      refl

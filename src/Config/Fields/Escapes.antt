-- ===== src/Config/Fields/Escapes.antt =====
-- The validators of single fields raise nothing but a `ConfigError`.
use relay_inner_display_scri.Base.{ℕ, ◌≡◌, String, Bool, Option, List, arith}
use relay_inner_display_scri.Exec.{Reason}
use relay_inner_display_scri.Config.Checked.{Checked, failed}
use relay_inner_display_scri.Config.Checked.Fails.{FailsOnly, fails_rules}
use relay_inner_display_scri.Config.Toml.{Value, Table}
use relay_inner_display_scri.Config.Platform.{Platform}
use relay_inner_display_scri.Config.Fields.{
  require_table, optional_table, require_non_empty_string, non_empty_string_of, optional_string,
  optional_non_empty_string, positive_of, require_positive_int, optional_non_negative_int,
  optional_bool, require_vnc_display_number, optional_port, require_only_keys, require_subset_keys,
  require_empty_table, require_absolute_path, optional_absolute_path,
  optional_absolute_path_or_none, optional_command_or_absolute_path, require_child_path, natural_in,
}

module _ {P : Reason → Type 0} where
  never : {A : Type 0} (m : Checked A) → ((r : Reason) → m ≡ failed r → ⊥) → FailsOnly P m
  never m k = record { at = λ r e. let impossible = k r e in elim impossible [ ] }

  pub Fails-require_table : (t : Table) (key : String) → FailsOnly P (require_table t key)
  unfolding require_table
  Fails-require_table t key = never _ (λ r e. ground arith)

  pub Fails-optional_table : (t : Table) (key : String) → FailsOnly P (optional_table t key)
  unfolding optional_table
  Fails-optional_table t key = never _ (λ r e. ground arith)

  pub Fails-require_non_empty_string :
      (t : Table) (key : String) → FailsOnly P (require_non_empty_string t key)
  unfolding require_non_empty_string non_empty_string_of
  Fails-require_non_empty_string t key = never _ (λ r e. ground arith)

  pub Fails-optional_string :
      (t : Table) (key : String) (default : String) → FailsOnly P (optional_string t key default)
  unfolding optional_string
  Fails-optional_string t key default = never _ (λ r e. ground arith)

  pub Fails-optional_non_empty_string :
      (t : Table) (key : String) (default : String)
      → FailsOnly P (optional_non_empty_string t key default)
  unfolding optional_non_empty_string non_empty_string_of
  Fails-optional_non_empty_string t key default = never _ (λ r e. ground arith)

  pub Fails-require_positive_int :
      (t : Table) (key : String) → FailsOnly P (require_positive_int t key)
  unfolding require_positive_int positive_of
  Fails-require_positive_int t key = never _ (λ r e. ground arith)

  pub Fails-optional_non_negative_int :
      (t : Table) (key : String) (default : ℕ)
      → FailsOnly P (optional_non_negative_int t key default)
  unfolding optional_non_negative_int
  Fails-optional_non_negative_int t key default = never _ (λ r e. ground arith)

  pub Fails-optional_bool :
      (t : Table) (key : String) (default : Bool) → FailsOnly P (optional_bool t key default)
  unfolding optional_bool
  Fails-optional_bool t key default = never _ (λ r e. ground arith)

  pub Fails-require_only_keys :
      (t : Table) (allowed : List String) (label : String)
      → FailsOnly P (require_only_keys t allowed label)
  unfolding require_only_keys
  Fails-require_only_keys t allowed label = never _ (λ r e. ground arith)

  pub Fails-require_subset_keys :
      (t : Table) (label : String) (allowed : List String)
      → FailsOnly P (require_subset_keys t label allowed)
  unfolding require_subset_keys
  Fails-require_subset_keys t label allowed = never _ (λ r e. ground arith)

  Fails-positive_of : (key : String) (v : Value) → FailsOnly P (positive_of key v)
  unfolding positive_of
  Fails-positive_of key v = never _ (λ r e. ground arith)

  Fails-natural_in : (key : String) (v : Option Value) → FailsOnly P (natural_in key v)
  Fails-natural_in key v = never _ (λ r e. ground arith)

  pub Fails-require_empty_table :
      (b : Table) (backend label : String) → FailsOnly P (require_empty_table b backend label)
  unfolding require_empty_table
  Fails-require_empty_table b backend label = search fails_rules

  pub Fails-require_vnc_display_number :
      (t : Table) (key : String) → FailsOnly P (require_vnc_display_number t key)
  unfolding require_vnc_display_number
  Fails-require_vnc_display_number t key = search (fails_rules, Fails-natural_in)

  pub Fails-optional_port :
      (t : Table) (key : String) (default : ℕ) → FailsOnly P (optional_port t key default)
  unfolding optional_port
  Fails-optional_port t key default = search (fails_rules, Fails-positive_of)

  module _ (lib : Platform) where
    pub Fails-require_absolute_path :
        (t : Table) (key : String) → FailsOnly P (require_absolute_path lib t key)
    unfolding require_absolute_path
    Fails-require_absolute_path t key = search (fails_rules, Fails-require_non_empty_string)

    pub Fails-optional_absolute_path :
        (t : Table) (key default : String) → FailsOnly P (optional_absolute_path lib t key default)
    unfolding optional_absolute_path
    Fails-optional_absolute_path t key default =
        search (fails_rules, Fails-optional_non_empty_string)

    pub Fails-optional_absolute_path_or_none :
        (t : Table) (key : String) → FailsOnly P (optional_absolute_path_or_none lib t key)
    unfolding optional_absolute_path_or_none
    Fails-optional_absolute_path_or_none t key = search (fails_rules, Fails-require_absolute_path)

    pub Fails-optional_command :
        (t : Table) (key default : String)
        → FailsOnly P (optional_command_or_absolute_path lib t key default)
    unfolding optional_command_or_absolute_path
    Fails-optional_command t key default = search (fails_rules, Fails-optional_non_empty_string)

    pub Fails-require_child_path :
        (root child label : String) → FailsOnly P (require_child_path lib root child label)
    unfolding require_child_path
    Fails-require_child_path root child label = search fails_rules

  pub ruleset field_rules = (
    fails_rules, Fails-require_table, Fails-optional_table, Fails-require_non_empty_string,
    Fails-optional_string, Fails-optional_non_empty_string, Fails-require_positive_int,
    Fails-optional_non_negative_int, Fails-optional_bool, Fails-require_only_keys,
    Fails-require_subset_keys, Fails-require_empty_table, Fails-require_vnc_display_number,
    Fails-optional_port, Fails-require_absolute_path, Fails-optional_absolute_path,
    Fails-optional_absolute_path_or_none, Fails-optional_command, Fails-require_child_path,
  )

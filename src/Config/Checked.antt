-- ===== src/Config/Checked.antt =====
-- The results of reading a configuration: a value, a `ConfigError`, or another exception.
pub mod Yields
pub mod Fails
use relay_inner_display_scri.Base.{String, Bool, true, false, List, []}
use relay_inner_display_scri.Exec.{Reason, formatted}

pub data Checked {ℓ} (A : Type ℓ) : Type ℓ where
  accepted : A → Checked A
  refused : Reason → Checked A
  failed : Reason → Checked A

module _ {ℓ κ} {A : Type ℓ} {B : Type κ} where
  infixl 10 ◌>>=◌ ◌>>◌
  unfoldable pub ◌>>=◌ : Checked A → (A → Checked B) → Checked B
  accepted a >>= f = f a
  refused r >>= f = refused r
  failed r >>= f = failed r

  abbrev pub ◌>>◌ : Checked A → Checked B → Checked B
  m >> n = m >>= λ _. n

-- `raise ConfigError(f"…")`
abbrev pub config_error {ℓ} : {A : Type ℓ} → String → List String → Checked A
config_error template arguments = refused (formatted template arguments)

-- `if b: raise ConfigError(f"…")`
abbrev pub refuse_if : Bool → String → List String → Checked (Unit {0})
refuse_if true template arguments = config_error template arguments
refuse_if false template arguments = accepted tt

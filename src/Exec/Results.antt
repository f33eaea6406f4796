-- ===== src/Exec/Results.antt =====
-- Chains of outcomes with no object to change.
use relay_inner_display_scri.Base.{Bool, true, false}
use relay_inner_display_scri.Exec.{Exn, Outcome, ok, raised}

module _ {ℓ κ} {A : Type ℓ} {B : Type κ} where
  infixl 10 ◌>>=◌ ◌>>◌
  unfoldable pub ◌>>=◌ : Outcome A → (A → Outcome B) → Outcome B
  ok a >>= f = f a
  raised e >>= f = raised e

  abbrev pub ◌>>◌ : Outcome A → Outcome B → Outcome B
  m >> n = m >>= λ _. n

-- `if b: raise e`
abbrev pub raise_if : Bool → Exn → Outcome (Unit {0})
raise_if true e = raised e
raise_if false e = ok tt

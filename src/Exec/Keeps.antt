-- ===== src/Exec/Keeps.antt =====
-- Two judgements on the states before and after a method: that it keeps an invariant, and that it
-- leads from one predicate to another, however it ends.
use relay_inner_display_scri.Base.{Bool, true, false, if◌then◌else◌}
use relay_inner_display_scri.Exec.{
  Exn, Outcome, ok, raised, Exec, pure, raise, gets, method, modify, ◌>>=◌, try_then, handled,
  continue,
}

-- The invariant `I` survives `m`, also where an exception cuts `m` short.
pub record Keeps {ℓ} {S A : Type ℓ} (I : S → Type ℓ) (m : Exec S A) : Type ℓ where
  pub at : (s : S) → I s → I (m s).1

module _ {ℓ} {S A : Type ℓ} {I : S → Type ℓ} where
  pub Keeps-method : (f : S → A × S) → ((s : S) → I s → I (f s).1) → Keeps I (method f)
  unfolding method
  Keeps-method f k = record { at = k }

  pub Keeps-pure : (a : A) → Keeps I (pure a)
  unfolding pure
  Keeps-pure a = record { at = λ before i. i }

  pub Keeps-gets : (f : S → A) → Keeps I (gets f)
  unfolding gets
  Keeps-gets f = record { at = λ before i. i }

  pub Keeps-raise : (e : Exn) → Keeps I (raise {A = A} e)
  unfolding raise
  Keeps-raise e = record { at = λ before i. i }

  pub Keeps-if : (b : Bool) (m n : Exec S A) → Keeps I m → Keeps I n → Keeps I (if b then m else n)
  Keeps-if true m n km kn = km
  Keeps-if false m n km kn = kn

module _ {S : Type 0} {I : S → Type 0} where
  pub Keeps-modify : (f : S → S) → ((s : S) → I s → I (f s)) → Keeps I (modify f)
  unfolding modify
  Keeps-modify f k = record { at = k }

module _ {ℓ} {S A B : Type ℓ} {I : S → Type ℓ} where
  handled_keeps :
      (r : Outcome A) (s : S) (h : Exn → Exec S B) (k : A → Exec S B)
      → I s
      → ((e : Exn) → Keeps I (h e))
      → ((a : A) → Keeps I (k a))
      → I (handled r h k s).1
  handled_keeps (ok a) s h k p kh kk = (kk a).at s p
  handled_keeps (raised e) s h k p kh kk = (kh e).at s p

  continue_keeps :
      (r : Outcome A) (s : S) (k : A → Exec S B)
      → I s
      → ((a : A) → Keeps I (k a))
      → I (continue r k s).1
  continue_keeps (ok a) s k p kk = (kk a).at s p
  continue_keeps (raised e) s k p kk = p

  pub Keeps-bind :
      (m : Exec S A) (f : A → Exec S B) → Keeps I m → ((a : A) → Keeps I (f a)) → Keeps I (m >>= f)
  unfolding ◌>>=◌
  Keeps-bind m f km kf = record {
    at = λ s h. let (r, s') = m s in continue_keeps r s' f (km.at s h) kf;
  }

  pub Keeps-try :
      (m : Exec S A) (h : Exn → Exec S B) (k : A → Exec S B)
      → Keeps I m
      → ((e : Exn) → Keeps I (h e))
      → ((a : A) → Keeps I (k a))
      → Keeps I (try_then m h k)
  unfolding try_then
  Keeps-try m h k km kh kk = record {
    at = λ s p. let (r, s') = m s in handled_keeps r s' h k (km.at s p) kh kk;
  }

pub ruleset keeps_rules = (
  Keeps-pure, Keeps-raise, Keeps-gets, Keeps-method, Keeps-if, Keeps-modify, Keeps-bind, Keeps-try,
)

-- From a state with `P`, `m` ends in a state with `Q`, whether it returns or raises.
pub record Leads {ℓ} {S A : Type ℓ} (P Q : S → Type ℓ) (m : Exec S A) : Type ℓ where
  pub at : (s : S) → P s → Q (m s).1

module _ {ℓ} {S A B : Type ℓ} {R Q : S → Type ℓ} where
  handled_leads :
      (r : Outcome A) (s : S) (h : Exn → Exec S B) (k : A → Exec S B)
      → R s
      → ((e : Exn) → Leads R Q (h e))
      → ((a : A) → Leads R Q (k a))
      → Q (handled r h k s).1
  handled_leads (ok a) s h k p kh kk = (kk a).at s p
  handled_leads (raised e) s h k p kh kk = (kh e).at s p

  continue_leads :
      (sub : (s : S) → R s → Q s) (r : Outcome A) (s : S) (k : A → Exec S B)
      → R s
      → ((a : A) → Leads R Q (k a))
      → Q (continue r k s).1
  continue_leads sub (ok a) s k p kk = (kk a).at s p
  continue_leads sub (raised e) s k p kk = sub s p

module _ {ℓ} {S A B : Type ℓ} {P R Q : S → Type ℓ} (sub : (s : S) → R s → Q s) where
  pub Leads-bind :
      (m : Exec S A) (f : A → Exec S B)
      → Leads P R m
      → ((a : A) → Leads R Q (f a))
      → Leads P Q (m >>= f)
  unfolding ◌>>=◌
  Leads-bind m f km kf = record {
    at = λ s h. let (r, s') = m s in continue_leads sub r s' f (km.at s h) kf;
  }

module _ {ℓ} {S A B : Type ℓ} {P R Q : S → Type ℓ} where
  pub Leads-try :
      (m : Exec S A) (h : Exn → Exec S B) (k : A → Exec S B)
      → Leads P R m
      → ((e : Exn) → Leads R Q (h e))
      → ((a : A) → Leads R Q (k a))
      → Leads P Q (try_then m h k)
  unfolding try_then
  Leads-try m h k km kh kk = record {
    at = λ s p. let (r, s') = m s in handled_leads r s' h k (km.at s p) kh kk;
  }

module _ {ℓ} {S A : Type ℓ} {P Q : S → Type ℓ} where
  pub Leads-if :
      (b : Bool) (m n : Exec S A) → Leads P Q m → Leads P Q n → Leads P Q (if b then m else n)
  Leads-if true m n km kn = km
  Leads-if false m n km kn = kn

  pub Leads-raise : (e : Exn) → ((s : S) → P s → Q s) → Leads P Q (raise {A = A} e)
  unfolding raise
  Leads-raise e sub = record { at = sub }

  pub Leads-pure : (a : A) → ((s : S) → P s → Q s) → Leads P Q (pure a)
  unfolding pure
  Leads-pure a sub = record { at = sub }

  pub Leads-method : (f : S → A × S) → ((s : S) → P s → Q (f s).1) → Leads P Q (method f)
  unfolding method
  Leads-method f k = record { at = k }

module _ {S : Type 0} {P Q : S → Type 0} where
  pub Leads-modify : (f : S → S) → ((s : S) → P s → Q (f s)) → Leads P Q (modify f)
  unfolding modify
  Leads-modify f k = record { at = k }

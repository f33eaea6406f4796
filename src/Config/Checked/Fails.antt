-- ===== src/Config/Checked/Fails.antt =====
-- Which exceptions other than a `ConfigError` a checked result may raise: one rule for each way to
-- build it.
use mathlib.Core.Path.{subst, ap}
use relay_inner_display_scri.Base.{◌≡◌, refl, Bool, true, false, String, List, if◌then◌else◌}
use relay_inner_display_scri.Exec.{Reason}
use relay_inner_display_scri.Config.Checked.{Checked, accepted, refused, failed, ◌>>=◌, refuse_if}

pub record FailsOnly {A : Type 0} (P : Reason → Type 0) (m : Checked A) : Type 0 where
  pub at : (r : Reason) → m ≡ failed r → P r

module _ {A : Type 0} {P : Reason → Type 0} where
  pub FailsOnly-accepted : (a : A) → FailsOnly P (accepted a)
  FailsOnly-accepted a = record { at = λ r e. cc }

  pub FailsOnly-refused : (r : Reason) → FailsOnly {A = A} P (refused r)
  FailsOnly-refused r = record { at = λ q e. cc }

  pub FailsOnly-if :
      (b : Bool) (m n : Checked A)
      → FailsOnly P m
      → FailsOnly P n
      → FailsOnly P (if b then m else n)
  FailsOnly-if true m n km kn = km
  FailsOnly-if false m n km kn = kn

abbrev reason_or : {A : Type 0} → Reason → Checked A → Reason
reason_or d (failed r) = r
reason_or d _ = d

module _ {A : Type 0} {P : Reason → Type 0} where
  pub FailsOnly-failed : (r : Reason) → P r → FailsOnly {A = A} P (failed r)
  FailsOnly-failed r p = record { at = λ q e. subst P (ap (reason_or r) e) p }

module _ {P : Reason → Type 0} where
  pub FailsOnly-refuse_if :
      (b : Bool) (template : String) (arguments : List String)
      → FailsOnly P (refuse_if b template arguments)
  FailsOnly-refuse_if true template arguments = FailsOnly-refused _
  FailsOnly-refuse_if false template arguments = FailsOnly-accepted tt

module _ {A B : Type 0} {P : Reason → Type 0} where
  -- what follows may use that the value was accepted
  pub FailsOnly-after :
      (m : Checked A) (f : A → Checked B)
      → FailsOnly P m
      → ((a : A) → m ≡ accepted a → FailsOnly P (f a))
      → FailsOnly P (m >>= f)
  unfolding ◌>>=◌
  FailsOnly-after (accepted a) f km kf = kf a refl
  FailsOnly-after (refused r) f km kf = FailsOnly-refused r
  FailsOnly-after (failed r) f km kf = FailsOnly-failed r (km.at r refl)

  pub FailsOnly-bind :
      (m : Checked A) (f : A → Checked B)
      → FailsOnly P m
      → ((a : A) → FailsOnly P (f a))
      → FailsOnly P (m >>= f)
  FailsOnly-bind m f km kf = FailsOnly-after m f km (λ a _. kf a)

pub ruleset fails_rules =
    (FailsOnly-accepted, FailsOnly-refused, FailsOnly-if, FailsOnly-refuse_if, FailsOnly-bind)

-- ===== src/Config/Checked/Yields.antt =====
-- What holds of an accepted value, and that nothing but a `ConfigError` is raised: one rule for each
-- way to build a checked result.
use mathlib.Core.Path.{subst, ap}
use relay_inner_display_scri.Base.{◌≡◌, refl, Bool, true, false, String, List, not, if◌then◌else◌}
use relay_inner_display_scri.Exec.{Reason}
use relay_inner_display_scri.Config.Checked.{Checked, accepted, refused, failed, ◌>>=◌, refuse_if}

pub record Yields {A : Type 0} (P : A → Type 0) (m : Checked A) : Type 0 where
  pub at : (a : A) → m ≡ accepted a → P a

abbrev value_or : {A : Type 0} → A → Checked A → A
value_or d (accepted a) = a
value_or d _ = d

module _ {A : Type 0} {P : A → Type 0} where
  pub Yields-accepted : (a : A) → P a → Yields P (accepted a)
  Yields-accepted a p = record { at = λ b e. subst P (ap (value_or a) e) p }

  pub Yields-refused : (r : Reason) → Yields P (refused r)
  Yields-refused r = record { at = λ b e. cc }

  pub Yields-failed : (r : Reason) → Yields P (failed r)
  Yields-failed r = record { at = λ b e. cc }

  pub Yields-if :
      (b : Bool) (m n : Checked A)
      → (b ≡ true → Yields P m)
      → (b ≡ false → Yields P n)
      → Yields P (if b then m else n)
  Yields-if true m n km kn = km refl
  Yields-if false m n km kn = kn refl

pub Yields-refuse_if :
    (b : Bool) (template : String) (arguments : List String)
    → Yields (λ _. b ≡ false) (refuse_if b template arguments)
Yields-refuse_if true template arguments = Yields-refused _
Yields-refuse_if false template arguments = Yields-accepted tt refl

pub Yields-refuse_unless :
    (b : Bool) (template : String) (arguments : List String)
    → Yields (λ _. b ≡ true) (refuse_if (not b) template arguments)
Yields-refuse_unless true template arguments = Yields-accepted tt refl
Yields-refuse_unless false template arguments = Yields-refused _

module _ {A B : Type 0} {R : A → Type 0} {P : B → Type 0} where
  pub Yields-bind :
      (m : Checked A) (f : A → Checked B)
      → Yields R m
      → ((a : A) → R a → Yields P (f a))
      → Yields P (m >>= f)
  unfolding ◌>>=◌
  Yields-bind (accepted a) f y k = k a (y.at a refl)
  Yields-bind (refused r) f y k = Yields-refused r
  Yields-bind (failed r) f y k = Yields-failed r

-- where nothing is said of the first value
module _ {A B : Type 0} {P : B → Type 0} where
  pub Yields-then :
      (m : Checked A) (f : A → Checked B) → ((a : A) → Yields P (f a)) → Yields P (m >>= f)
  Yields-then m f k = Yields-bind {R = λ _. Unit} m f (record { at = λ a e. tt }) (λ a _. k a)

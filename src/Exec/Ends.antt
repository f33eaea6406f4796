-- ===== src/Exec/Ends.antt =====
-- What holds where a method returns: a postcondition on the value and the object, with one rule for
-- each way to build a method. Nothing is said where it raises.
use relay_inner_display_scri.Base.{◌≡◌, refl, Bool, true, false, if◌then◌else◌}
use mathlib.Core.Path.{subst, ap}
use relay_inner_display_scri.Exec.{
  Exn, Outcome, ok, raised, Exec, pure, raise, gets, method, modify, ◌>>=◌, try_then, handled,
  continue,
}

pub record Ends {S A : Type 0} (P : S → Type 0) (Q : A → S → Type 0) (m : Exec S A) : Type 0 where
  pub at : (s : S) → P s → (a : A) → (m s).0 ≡ ok a → Q a (m s).1

abbrev value_or : {A : Type 0} → A → Outcome A → A
value_or d (ok a) = a
value_or d (raised _) = d

-- from the value that is returned to the one that an equation of outcomes names
ok_subst : {A : Type 0} (Q : A → Type 0) (a b : A) → ok a ≡ ok b → Q a → Q b
ok_subst Q a b e q = subst Q (ap (value_or a) e) q

module _ {S A : Type 0} {P : S → Type 0} {Q : A → S → Type 0} where
  pub Ends-pure : (a : A) → ((s : S) → P s → Q a s) → Ends P Q (pure a)
  unfolding pure
  Ends-pure a k = record { at = λ s h b e. ok_subst (λ x. Q x s) a b e (k s h) }

  pub Ends-raise : (e : Exn) → Ends P Q (raise e)
  unfolding raise
  Ends-raise x = record { at = λ s h b e. cc }

  pub Ends-gets : (f : S → A) → ((s : S) → P s → Q (f s) s) → Ends P Q (gets f)
  unfolding gets
  Ends-gets f k = record { at = λ s h b e. ok_subst (λ x. Q x s) (f s) b e (k s h) }

  pub Ends-method : (f : S → A × S) → ((s : S) → P s → Q (f s).0 (f s).1) → Ends P Q (method f)
  unfolding method
  Ends-method f k = record { at = λ s h b e. ok_subst (λ x. Q x (f s).1) (f s).0 b e (k s h) }

  pub Ends-if :
      (b : Bool) (m n : Exec S A)
      → (b ≡ true → Ends P Q m)
      → (b ≡ false → Ends P Q n)
      → Ends P Q (if b then m else n)
  Ends-if true m n km kn = km refl
  Ends-if false m n km kn = kn refl

module _ {S : Type 0} {P : S → Type 0} {Q : Unit {0} → S → Type 0} where
  pub Ends-modify : (f : S → S) → ((s : S) → P s → Q tt (f s)) → Ends P Q (modify f)
  unfolding modify
  Ends-modify f k = record { at = λ s h b e. ok_subst (λ x. Q x (f s)) tt b e (k s h) }

module _ {S A B : Type 0} {R : A → S → Type 0} {Q : B → S → Type 0} where
  continue_ends :
      (r : Outcome A) (s : S) (f : A → Exec S B)
      → ((a : A) → r ≡ ok a → R a s)
      → ((a : A) → Ends (R a) Q (f a))
      → (b : B) → (continue r f s).0 ≡ ok b
      → Q b (continue r f s).1
  continue_ends (ok a) s f h kf b e = (kf a).at s (h a refl) b e
  continue_ends (raised x) s f h kf b e = cc

  handled_ends :
      (T : S → Type 0) (r : Outcome A) (s : S) (h : Exn → Exec S B) (k : A → Exec S B)
      → T s
      → ((a : A) → r ≡ ok a → R a s)
      → ((e : Exn) → Ends T Q (h e))
      → ((a : A) → Ends (R a) Q (k a))
      → (b : B) → (handled r h k s).0 ≡ ok b
      → Q b (handled r h k s).1
  handled_ends T (ok a) s h k t ra kh kk b e = (kk a).at s (ra a refl) b e
  handled_ends T (raised x) s h k t ra kh kk b e = (kh x).at s t b e

  pub Ends-bind :
      {P : S → Type 0} (m : Exec S A) (f : A → Exec S B)
      → Ends P R m
      → ((a : A) → Ends (R a) Q (f a))
      → Ends P Q (m >>= f)
  unfolding ◌>>=◌
  Ends-bind m f km kf = record {
    at = λ s h b e. let (r, s') = m s in continue_ends r s' f (km.at s h) kf b e;
  }

  -- the handlers start from what holds of the object however `m` ends
  pub Ends-try :
      {P : S → Type 0} (T : S → Type 0) (m : Exec S A) (h : Exn → Exec S B) (k : A → Exec S B)
      → ((s : S) → P s → T (m s).1)
      → Ends P R m
      → ((e : Exn) → Ends T Q (h e))
      → ((a : A) → Ends (R a) Q (k a))
      → Ends P Q (try_then m h k)
  unfolding try_then
  Ends-try T m h k kt km kh kk = record {
    at = λ s p b e. let (r, s') = m s in handled_ends T r s' h k (kt s p) (km.at s p) kh kk b e;
  }

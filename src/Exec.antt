-- ===== src/Exec.antt =====
-- Python methods as functions from an object to an outcome and the object: an exception undoes
-- none of the writes before it.
pub mod Keeps
pub mod Ends
pub mod Results
use relay_inner_display_scri.Base.{ℤ, ℕ, String, List}

-- The f-strings of messages and errors, each as a constructor over its arguments; `text` is the
-- text of an exception from outside, or a literal.
pub data Reason : Type 0 where
  text : String → Reason
  console_exited_unexpectedly : String → ℤ → ℤ → Reason
  console_preparation_failed : String → Reason → Reason
  power_button_read_failed : Reason → Reason
  invalid_config : Reason → Reason
  moonlight_host_unreachable : String → ℕ → Reason
  moonlight_probe_unreachable : String → Reason
  moonlight_app_unavailable : String → String → Reason
  formatted : (template : String) → (arguments : List String) → Reason
  formatted_with : (template : String) → (arguments : List String) → Reason → Reason

-- The exceptions that the code raises or catches by name, and `other` for every other one.
pub data Exn : Type 0 where
  proxmox_command_error vnc_configuration_error vnc_endpoint_unavailable : Reason → Exn
  runtime_validation_error power_button_error os_error ipc_error assertion_error : Reason → Exn
  timeout_expired : Reason → Exn
  other : Reason → Exn

pub data Outcome {ℓ} (A : Type ℓ) : Type ℓ where
  ok : A → Outcome A
  raised : Exn → Outcome A

abbrev pub Exec {ℓ} : Type ℓ → Type ℓ → Type ℓ
Exec S A = S → Outcome A × S

module _ {ℓ} {S A : Type ℓ} where
  unfoldable pub pure : A → Exec S A
  pure a s = (ok a, s)

  unfoldable pub raise : Exn → Exec S A
  raise e s = (raised e, s)

  unfoldable pub gets : (S → A) → Exec S A
  gets f s = (ok (f s), s)

  -- a method that returns a value, changes the object, and cannot raise
  unfoldable pub method : (S → A × S) → Exec S A
  method f s = let (a, s') = f s in (ok a, s')

unfoldable pub modify : {S : Type 0} → (S → S) → Exec S Unit
modify f s = (ok tt, f s)

module _ {ℓ} {S A B : Type ℓ} where
  abbrev pub continue : Outcome A → (A → Exec S B) → Exec S B
  continue (ok a) f s = f a s
  continue (raised e) f s = (raised e, s)

  infixl 10 ◌>>=◌ ◌>>◌
  -- opening this opens the simple actions too
  unfoldable pub ◌>>=◌ : Exec S A → (A → Exec S B) → Exec S B
  unfolding pure raise gets method modify
  ◌>>=◌ m f s = let (r, s') = m s in continue r f s'

  abbrev pub ◌>>◌ : Exec S A → Exec S B → Exec S B
  m >> n = m >>= λ _. n

  abbrev pub handled : Outcome A → (Exn → Exec S B) → (A → Exec S B) → Exec S B
  handled (ok a) h k s = k a s
  handled (raised e) h k s = h e s

  -- `try: a = m() except …: h` followed by `k`, which stands outside the `try`
  unfoldable pub try_then : Exec S A → (Exn → Exec S B) → (A → Exec S B) → Exec S B
  unfolding pure raise gets method modify
  try_then m h k s = let (r, s') = m s in handled r h k s'

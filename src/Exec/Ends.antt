-- ===== src/Exec/Ends.antt =====
-- How an action of two parts ends, by how the first part ends.
use cri_containerd.Base.{◌≡◌, refl, Error, Result, ok, err, panic}
use cri_containerd.Exec.Actions.{Exec, rethrow, ◌>>=◌, wrap_error, on_error}

module _ {S A B : Type 0} (Q : Result B × S → Type 0) (g : Error → Error) (f : A → Exec S B) where
  -- `o` is the outcome of the first part, whose error `g` wraps
  pub wrapped_bind :
      (o : Result A × S)
      → ((a : A) → o.0 ≡ ok a → Q (f a o.1))
      → ((e : Error) → o.0 ≡ err e → Q (err (g e), o.1))
      → (o.0 ≡ panic → Q (panic, o.1))
      → Q ((wrap_error g (λ _. o) >>= f) o.1)
  wrapped_bind (ok a, s) value failure fault = value a refl
  wrapped_bind (err e, s) value failure fault = failure e refl
  wrapped_bind (panic, s) value failure fault = fault refl

module _ {S A B : Type 0} (Q : Result B × S → Type 0) (f : A → Exec S B) where
  pub bind_ends :
      (o : Result A × S)
      → ((a : A) → o.0 ≡ ok a → Q (f a o.1))
      → ((e : Error) → o.0 ≡ err e → Q (err e, o.1))
      → (o.0 ≡ panic → Q (panic, o.1))
      → Q (((λ _. o) >>= f) o.1)
  bind_ends (ok a, s) value failure fault = value a refl
  bind_ends (err e, s) value failure fault = failure e refl
  bind_ends (panic, s) value failure fault = fault refl

module _ {S A : Type 0} (Q : Result A × S → Type 0) (cleanup : Exec S (Unit {0})) where
  -- `o` is the outcome before the deferred cleanup
  pub cleaned :
      (o : Result A × S)
      → ((a : A) → o.0 ≡ ok a → Q (ok a, o.1))
      → ((e : Error) → o.0 ≡ err e → Q (rethrow e (cleanup o.1)))
      → (o.0 ≡ panic → Q (panic, o.1))
      → Q (on_error cleanup (λ _. o) o.1)
  cleaned (ok a, s) value failure fault = value a refl
  cleaned (err e, s) value failure fault = failure e refl
  cleaned (panic, s) value failure fault = fault refl

-- wrapping an error does not touch the state
pub wrap_state :
    {S A : Type 0} (g : Error → Error) (o : Result A × S) → (wrap_error g (λ _. o) o.1).1 ≡ o.1
wrap_state g (ok a, s) = refl
wrap_state g (err e, s) = refl
wrap_state g (panic, s) = refl

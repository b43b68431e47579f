-- ===== src/Exec/Panics.antt =====
-- Actions that never panic, whatever the state. One rule for each way to build an action.
use cri_containerd.Base.{
  ◌≢◌, refl, arith, Bool, true, false, if◌then◌else◌, Error, Result, ok, err, panic,
}
use cri_containerd.Exec.Actions.{
  Exec, ◌>>◌, pure, raise, lift, gets, ◌>>=◌, modify, guard, wrap_error, on_error, unless,
}

pub record NoPanic {S A : Type 0} (m : Exec S A) : Type 0 where
  pub at : (s : S) → (m s).0 ≢ panic

bind_lift_safe :
    {S A B : Type 0} (r : Result A) (f : A → Exec S B)
    → ((a : A) → NoPanic (f a))
    → r ≢ panic
    → (s : S) → ((lift r >>= f) s).0 ≢ panic
bind_lift_safe (ok a) f after h s = (after a).at s
bind_lift_safe (err e) f after h s = λ p. cc
bind_lift_safe panic f after h s = absurd (h refl)

module _ {S A : Type 0} where
  pub NoPanic-pure : (a : A) → NoPanic (pure {S = S} a)
  NoPanic-pure a = record { at = λ s e. cc }

  pub NoPanic-raise : (e : Error) → NoPanic (raise {S = S} {A = A} e)
  NoPanic-raise e = record { at = λ s p. cc }

  pub NoPanic-gets : (f : S → A) → NoPanic (gets f)
  NoPanic-gets f = record { at = λ s e. cc }

  pub NoPanic-lift : (r : Result A) → r ≢ panic → NoPanic (lift {S = S} r)
  NoPanic-lift r h = record { at = λ s e. h e }

  pub NoPanic-if :
      (b : Bool) (m n : Exec S A) → NoPanic m → NoPanic n → NoPanic (if b then m else n)
  NoPanic-if true m n first kn = first
  NoPanic-if false m n first kn = kn

  pub NoPanic-wrap : (f : Error → Error) (m : Exec S A) → NoPanic m → NoPanic (wrap_error f m)
  NoPanic-wrap f m first = record { at = λ s. ground (arith, first.at s) }

  pub NoPanic-on_error :
      (cleanup : Exec S (Unit {0})) (m : Exec S A)
      → NoPanic cleanup
      → NoPanic m
      → NoPanic (on_error cleanup m)
  NoPanic-on_error cleanup m kc first = record {
    at = λ s. ground (arith, first.at s, kc.at (m s).1);
  }

  pub NoPanic-bind :
      {B : Type 0} (m : Exec S A) (f : A → Exec S B)
      → NoPanic m
      → ((a : A) → NoPanic (f a))
      → NoPanic (m >>= f)
  NoPanic-bind m f first after = record {
    at = λ s. bind_lift_safe (m s).0 f (λ a. after a) (first.at s) (m s).1;
  }

  pub NoPanic-then :
      {B : Type 0} (m : Exec S A) (k : Exec S B) → NoPanic m → NoPanic k → NoPanic (m >> k)
  NoPanic-then m k first kk = NoPanic-bind m (λ _. k) first (λ _. kk)

pub NoPanic-guard : {S : Type 0} (b : Bool) (e : Error) → NoPanic (guard {S = S} b e)
NoPanic-guard true e = record { at = λ s p. cc }
NoPanic-guard false e = record { at = λ s p. cc }

pub NoPanic-modify : {S : Type 0} (f : S → S) → NoPanic (modify f)
NoPanic-modify f = record { at = λ s e. cc }

pub NoPanic-unless :
    {S : Type 0} (test : Error → Bool) (m : Exec S (Unit {0})) → NoPanic m → NoPanic (unless test m)
NoPanic-unless test m first = record { at = λ s. ground (arith, first.at s) }

pub ruleset panic_rules = (
  NoPanic-pure, NoPanic-raise, NoPanic-gets, NoPanic-lift, NoPanic-if, NoPanic-wrap,
  NoPanic-on_error, NoPanic-bind, NoPanic-then, NoPanic-guard, NoPanic-modify, NoPanic-unless,
)

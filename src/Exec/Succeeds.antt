-- ===== src/Exec/Succeeds.antt =====
-- What holds after an action that succeeds, whatever the state before it. Only its last part counts.
use cri_containerd.Base.{
  ◌≡◌, ◌≢◌, arith, Bool, true, false, if◌then◌else◌, Error, Result, ok, err, panic,
}
use cri_containerd.Exec.Actions.{
  Exec, rethrow, ◌>>◌, raise, fault_panic, lift, ◌>>=◌, wrap_error, on_error,
}

pub record Ensures {S A : Type 0} (Q : S → Type 0) (m : Exec S A) : Type 0 where
  pub at : (s : S) (a : A) → (m s).0 ≡ ok a → Q (m s).1

rethrow_fails :
    {S A : Type 0} (e : Error) (o : Result (Unit {0}) × S) (a : A) → (rethrow {A = A} e o).0 ≢ ok a
rethrow_fails e (ok b, s) a = λ h. cc
rethrow_fails e (err f, s) a = λ h. cc
rethrow_fails e (panic, s) a = λ h. cc

on_error_ensures :
    {S A : Type 0} (Q : S → Type 0) (cleanup : Exec S (Unit {0})) (o : Result A × S) (a : A)
    → (o.0 ≡ ok a → Q o.1)
    → (on_error cleanup (λ _. o) o.1).0 ≡ ok a
    → Q (on_error cleanup (λ _. o) o.1).1
on_error_ensures Q cleanup (ok b, s) a q h = q h
on_error_ensures Q cleanup (err e, s) a q h = absurd (rethrow_fails e (cleanup s) a h)
on_error_ensures Q cleanup (panic, s) a q h = cc

module _ {S A : Type 0} {Q : S → Type 0} where
  pub Ensures-raise : (e : Error) → Ensures Q (raise {A = A} e)
  Ensures-raise e = record { at = λ s a h. cc }

  pub Ensures-panic : Ensures Q (fault_panic {A = A})
  Ensures-panic = record { at = λ s a h. cc }

  pub Ensures-if :
      (b : Bool) (m n : Exec S A) → Ensures Q m → Ensures Q n → Ensures Q (if b then m else n)
  Ensures-if true m n first kn = first
  Ensures-if false m n first kn = kn

  pub Ensures-wrap : (f : Error → Error) (m : Exec S A) → Ensures Q m → Ensures Q (wrap_error f m)
  Ensures-wrap f m first = record { at = λ s a. ground (arith, first.at s a) }

  pub Ensures-on_error :
      (cleanup : Exec S (Unit {0})) (m : Exec S A) → Ensures Q m → Ensures Q (on_error cleanup m)
  Ensures-on_error cleanup m first = record {
    at = λ s a h. on_error_ensures Q cleanup (m s) a (first.at s a) h;
  }

bind_lift_ensures :
    {S A B : Type 0} {Q : S → Type 0} (r : Result A) (f : A → Exec S B) (s : S) (b : B)
    → ((a : A) → Ensures Q (f a))
    → ((lift r >>= f) s).0 ≡ ok b
    → Q ((lift r >>= f) s).1
bind_lift_ensures (ok a) f s b after h = (after a).at s b h
bind_lift_ensures (err e) f s b after h = cc
bind_lift_ensures panic f s b after h = cc

module _ {S A B : Type 0} {Q : S → Type 0} where
  pub Ensures-bind :
      (m : Exec S A) (f : A → Exec S B) → ((a : A) → Ensures Q (f a)) → Ensures Q (m >>= f)
  Ensures-bind m f after = record { at = λ s b h. bind_lift_ensures (m s).0 f (m s).1 b after h }

  pub Ensures-then : (m : Exec S A) (k : Exec S B) → Ensures Q k → Ensures Q (m >> k)
  Ensures-then m k kk = Ensures-bind m (λ _. k) (λ _. kk)

pub ruleset ensures_rules = (
  Ensures-raise, Ensures-panic, Ensures-if, Ensures-wrap, Ensures-on_error, Ensures-bind,
  Ensures-then,
)

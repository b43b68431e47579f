-- ===== src/Exec/Keeps.antt =====
-- What an action keeps: a predicate of the state, and a reflexive and transitive relation between
-- the state before and the state after. One rule for each way to build an action.
use cri_containerd.Base.{
  arith, ◌≡◌, refl, Bool, true, false, if◌then◌else◌, Error, Result, ok, err, panic,
}
use cri_containerd.Exec.Actions.{
  Exec, rethrow, ◌>>◌, pure, raise, fault_panic, lift, gets, ◌>>=◌, modify, guard, wrap_error,
  on_error, unless, optional, finally, reads,
}

-- `m` keeps `P`, however it ends
pub record Keeps {S A : Type 0} (P : S → Type 0) (m : Exec S A) : Type 0 where
  pub at : (s : S) → P s → P (m s).1

module _ {S A : Type 0} {P : S → Type 0} where
  pub Keeps-pure : (a : A) → Keeps P (pure a)
  Keeps-pure a = record { at = λ s held. held }

  pub Keeps-raise : (e : Error) → Keeps P (raise {A = A} e)
  Keeps-raise e = record { at = λ s held. held }

  pub Keeps-panic : Keeps P (fault_panic {A = A})
  Keeps-panic = record { at = λ s held. held }

  pub Keeps-lift : (r : Result A) → Keeps P (lift r)
  Keeps-lift r = record { at = λ s held. held }

  pub Keeps-gets : (f : S → A) → Keeps P (gets f)
  Keeps-gets f = record { at = λ s held. held }

  pub Keeps-if : (b : Bool) (m n : Exec S A) → Keeps P m → Keeps P n → Keeps P (if b then m else n)
  Keeps-if true m n first kn = first
  Keeps-if false m n first kn = kn

  pub Keeps-wrap : (f : Error → Error) (m : Exec S A) → Keeps P m → Keeps P (wrap_error f m)
  Keeps-wrap f m first = record { at = λ s h. ground (arith, first.at s h) }

pub Keeps-guard : {S : Type 0} {P : S → Type 0} (b : Bool) (e : Error) → Keeps P (guard b e)
Keeps-guard true e = record { at = λ s held. held }
Keeps-guard false e = record { at = λ s held. held }

-- the rest of the block may use that `r` is a value
pub Keeps-bind-lift :
    {S A B : Type 0} {P : S → Type 0} (r : Result A) (f : A → Exec S B)
    → ((a : A) → r ≡ ok a → Keeps P (f a))
    → Keeps P (lift r >>= f)
Keeps-bind-lift (ok a) f after = after a refl
Keeps-bind-lift (err e) f after = record { at = λ s held. held }
Keeps-bind-lift panic f after = record { at = λ s held. held }

rethrow_keeps :
    {S : Type 0} (A : Type 0) (P : S → Type 0) (e : Error) (o : Result (Unit {0}) × S)
    → P o.1
    → P (rethrow {A = A} e o).1
rethrow_keeps A P e (ok a, s) h = h
rethrow_keeps A P e (err f, s) h = h
rethrow_keeps A P e (panic, s) h = h

module _ {S A : Type 0} {P : S → Type 0} where
  pub Keeps-bind :
      {B : Type 0} (m : Exec S A) (f : A → Exec S B)
      → Keeps P m
      → ((a : A) → Keeps P (f a))
      → Keeps P (m >>= f)
  Keeps-bind m f first after = record {
    at = λ s h. let (r, s') = m s in (Keeps-bind-lift r f (λ a _. after a)).at s' (first.at s h);
  }

  pub Keeps-then :
      {B : Type 0} (m : Exec S A) (k : Exec S B) → Keeps P m → Keeps P k → Keeps P (m >> k)
  Keeps-then m k first kk = Keeps-bind m (λ _. k) first (λ _. kk)

  on_error_keeps :
      (cleanup : Exec S (Unit {0})) (o : Result A × S)
      → Keeps P cleanup
      → P o.1
      → P (on_error cleanup (λ _. o) o.1).1
  on_error_keeps cleanup (ok a, s) kc h = h
  on_error_keeps cleanup (err e, s) kc h = rethrow_keeps A P e (cleanup s) (kc.at s h)
  on_error_keeps cleanup (panic, s) kc h = h

  pub Keeps-on_error :
      (cleanup : Exec S (Unit {0})) (m : Exec S A)
      → Keeps P cleanup
      → Keeps P m
      → Keeps P (on_error cleanup m)
  Keeps-on_error cleanup m kc first = record {
    at = λ s h. on_error_keeps cleanup (m s) kc (first.at s h);
  }

module _ {S : Type 0} {P : S → Type 0} where
  pub Keeps-modify : (f : S → S) → ((s : S) → P s → P (f s)) → Keeps P (modify f)
  Keeps-modify f k = record { at = k }

  pub Keeps-unless :
      (test : Error → Bool) (m : Exec S (Unit {0})) → Keeps P m → Keeps P (unless test m)
  Keeps-unless test m first = record { at = λ s h. ground (arith, first.at s h) }

module _ {S A : Type 0} {P : S → Type 0} where
  pub Keeps-optional : (test : Error → Bool) (m : Exec S A) → Keeps P m → Keeps P (optional test m)
  Keeps-optional test m first = record { at = λ s h. ground (arith, first.at s h) }

  pub Keeps-finally :
      (cleanup : Exec S (Unit {0})) (m : Exec S A)
      → Keeps P cleanup
      → Keeps P m
      → Keeps P (finally cleanup m)
  Keeps-finally cleanup m last first = record { at = λ s h. last.at (m s).1 (first.at s h) }

  pub Keeps-reads : (f : S → Result A) → Keeps P (reads f)
  Keeps-reads f = record { at = λ s held. held }

pub ruleset keeps_rules = (
  Keeps-optional, Keeps-finally, Keeps-reads, Keeps-pure, Keeps-raise, Keeps-panic, Keeps-lift,
  Keeps-gets, Keeps-if, Keeps-wrap, Keeps-guard, Keeps-bind, Keeps-then, Keeps-on_error,
  Keeps-unless,
)

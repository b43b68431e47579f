-- ===== src/Exec/Commits.antt =====
-- Actions that take effect only if they succeed: what holds before still holds after an error.
use cri_containerd.Base.{Bool, true, false, if◌then◌else◌, Error, Result, ok, err, panic}
use cri_containerd.Exec.Actions.{
  Exec, rethrow, ◌>>=◌, ◌>>◌, raise, fault_panic, wrap_error, on_error,
}
use cri_containerd.Exec.Keeps.{Keeps}

-- `Q` holds of the value and the state after a success, `P` of the state after an error; a panic ends
-- the process.
abbrev pub Committed : {S A : Type 0} → (S → Type 0) → (A → S → Type 0) → Result A × S → Type 0
Committed P Q (ok a, s) = Q a s
Committed P Q (err _, s) = P s
Committed P Q (panic, s) = Unit

pub record Commits {S A : Type 0} (P : S → Type 0) (Q : A → S → Type 0) (m : Exec S A)
    : Type 0 where
  pub at : (s : S) → P s → Committed P Q (m s)

module _ {S A : Type 0} (P : S → Type 0) (Q : A → S → Type 0) where
  bind-Committed :
      {B : Type 0} (f : B → Exec S A) (o : Result B × S)
      → P o.1
      → ((b : B) → Commits P Q (f b))
      → Committed P Q (((λ _. o) >>= f) o.1)
  bind-Committed f (ok b, s) h k = (k b).at s h
  bind-Committed f (err e, s) h k = h
  bind-Committed f (panic, s) h k = tt

  wrap-Committed :
      (g : Error → Error) (o : Result A × S)
      → Committed P Q o
      → Committed P Q (wrap_error g (λ _. o) o.1)
  wrap-Committed g (ok a, s) h = h
  wrap-Committed g (err e, s) h = h
  wrap-Committed g (panic, s) h = tt

  rethrow-Committed : (e : Error) (o : Result (Unit {0}) × S) → P o.1 → Committed P Q (rethrow e o)
  rethrow-Committed e (ok a, s) h = h
  rethrow-Committed e (err x, s) h = h
  rethrow-Committed e (panic, s) h = tt

  cleanup-Committed :
      (cleanup : Exec S (Unit {0})) (o : Result A × S)
      → Keeps P cleanup
      → Committed P Q o
      → Committed P Q (on_error cleanup (λ _. o) o.1)
  cleanup-Committed cleanup (ok a, s) k h = h
  cleanup-Committed cleanup (err e, s) k h = rethrow-Committed e (cleanup s) (k.at s h)
  cleanup-Committed cleanup (panic, s) k h = tt

module _ {S A : Type 0} {P : S → Type 0} {Q : A → S → Type 0} where
  pub Commits-raise : (e : Error) → Commits P Q (raise e)
  Commits-raise e = record { at = λ s h. h }

  pub Commits-panic : Commits P Q fault_panic
  Commits-panic = record { at = λ s h. tt }

  pub Commits-if :
      (b : Bool) (m n : Exec S A) → Commits P Q m → Commits P Q n → Commits P Q (if b then m else n)
  Commits-if true m n x y = x
  Commits-if false m n x y = y

  pub Commits-bind :
      {B : Type 0} (m : Exec S B) (f : B → Exec S A)
      → Keeps P m
      → ((b : B) → Commits P Q (f b))
      → Commits P Q (m >>= f)
  Commits-bind m f x y = record { at = λ s h. bind-Committed P Q f (m s) (x.at s h) y }

  pub Commits-then :
      {B : Type 0} (m : Exec S B) (k : Exec S A) → Keeps P m → Commits P Q k → Commits P Q (m >> k)
  Commits-then m k x y = Commits-bind m (λ _. k) x (λ _. y)

  pub Commits-wrap :
      (g : Error → Error) (m : Exec S A) → Commits P Q m → Commits P Q (wrap_error g m)
  Commits-wrap g m x = record { at = λ s h. wrap-Committed P Q g (m s) (x.at s h) }

  pub Commits-on_error :
      (cleanup : Exec S (Unit {0})) (m : Exec S A)
      → Keeps P cleanup
      → Commits P Q m
      → Commits P Q (on_error cleanup m)
  Commits-on_error cleanup m x y = record {
    at = λ s h. cleanup-Committed P Q cleanup (m s) x (y.at s h);
  }

module _ {S A : Type 0} (P : S → Type 0) {Q R : A → S → Type 0} where
  weaken-Committed :
      ((a : A) (s : S) → Q a s → R a s) → (o : Result A × S) → Committed P Q o → Committed P R o
  weaken-Committed k (ok a, s) h = k a s h
  weaken-Committed k (err e, s) h = h
  weaken-Committed k (panic, s) h = tt

  pub Commits-weaken :
      ((a : A) (s : S) → Q a s → R a s) → (m : Exec S A) → Commits P Q m → Commits P R m
  Commits-weaken k m x = record { at = λ s h. weaken-Committed k (m s) (x.at s h) }

pub ruleset commits_rules = (
  Commits-raise, Commits-panic, Commits-if, Commits-bind, Commits-then, Commits-wrap,
  Commits-on_error,
)

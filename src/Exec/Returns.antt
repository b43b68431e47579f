-- ===== src/Exec/Returns.antt =====
-- What the value of an action that succeeds is like, whatever the state before it.
use cri_containerd.Base.{◌≡◌, refl, arith, Error, Result, ok, err, panic}
use cri_containerd.Exec.Actions.{Exec, pure, lift, ◌>>=◌, ◌>>◌, wrap_error, finally}

pub record Returns {S A : Type 0} (Q : A → Type 0) (m : Exec S A) : Type 0 where
  pub at : (s : S) (a : A) → (m s).0 ≡ ok a → Q a

module _ {S A : Type 0} {Q : A → Type 0} where
  pub Returns-pure : (a : A) → Q a → Returns Q (pure {S = S} a)
  Returns-pure a q = record { at = λ s b h. ground (arith, h, q) }

  pub Returns-wrap : (f : Error → Error) (m : Exec S A) → Returns Q m → Returns Q (wrap_error f m)
  Returns-wrap f m first = record { at = λ s a. ground (arith, first.at s a) }

  pub Returns-finally :
      (cleanup : Exec S (Unit {0})) (m : Exec S A) → Returns Q m → Returns Q (finally cleanup m)
  Returns-finally cleanup m first = record { at = first.at }

bind_lift_returns :
    {S A B : Type 0} {P : A → Type 0} {Q : B → Type 0} (r : Result A) (f : A → Exec S B) (s : S)
    (b : B)
    → ((a : A) → r ≡ ok a → P a)
    → ((a : A) → P a → Returns Q (f a))
    → ((lift r >>= f) s).0 ≡ ok b
    → Q b
bind_lift_returns (ok a) f s b first after h = (after a (first a refl)).at s b h
bind_lift_returns (err e) f s b first after h = cc
bind_lift_returns panic f s b first after h = cc

module _ {S A B : Type 0} {Q : B → Type 0} where
  -- the rest may use what the value of the first part is like
  pub Returns-bind :
      (P : A → Type 0) (m : Exec S A) (f : A → Exec S B)
      → Returns P m
      → ((a : A) → P a → Returns Q (f a))
      → Returns Q (m >>= f)
  Returns-bind P m f first after = record {
    at = λ s b h. bind_lift_returns {P = P} (m s).0 f (m s).1 b (first.at s) after h;
  }

  pub Returns-rest :
      (m : Exec S A) (f : A → Exec S B) → ((a : A) → Returns Q (f a)) → Returns Q (m >>= f)
  Returns-rest m f after =
      Returns-bind (λ a. Unit {0}) m f (record { at = λ s a h. tt }) (λ a p. after a)

  pub Returns-then : (m : Exec S A) (k : Exec S B) → Returns Q k → Returns Q (m >> k)
  Returns-then m k kk = Returns-rest m (λ _. k) (λ _. kk)

pub ruleset returns_rules = (Returns-wrap, Returns-finally, Returns-rest, Returns-then)

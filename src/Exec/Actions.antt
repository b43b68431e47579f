-- ===== src/Exec/Actions.antt =====
-- The ways to build an action, and Go's deferred cleanups.
use cri_containerd.Base.{
  Bool, true, false, Option, none, some, Error, Result, ok, err, panic, if◌then◌else◌,
}

abbrev pub Exec : Type 0 → Type 0 → Type 0
Exec S A = S → Result A × S

module _ {S A : Type 0} where
  abbrev pub pure : A → Exec S A
  pure a s = (ok a, s)

  abbrev pub raise : Error → Exec S A
  raise e s = (err e, s)

  abbrev pub fault_panic : Exec S A
  fault_panic s = (panic, s)

  abbrev pub lift : Result A → Exec S A
  lift r s = (r, s)

  abbrev pub gets : (S → A) → Exec S A
  gets f s = (ok (f s), s)

  abbrev pub or_raise : Option Error → A → Exec S A
  or_raise none a = pure a
  or_raise (some e) a = raise e

infixl 5 ◌>>=◌ ◌>>◌
abbrev pub ◌>>=◌ : {S A B : Type 0} → Exec S A → (A → Exec S B) → Exec S B
◌>>=◌ m f s =
    let (r, s') = m s in elim r [ ok a ↦ f a s' | err e ↦ (err e, s') | panic ↦ (panic, s') ]

abbrev pub ◌>>◌ : {S A B : Type 0} → Exec S A → Exec S B → Exec S B
m >> k = m >>= λ _. k

abbrev pub modify : {S : Type 0} → (S → S) → Exec S (Unit {0})
modify f s = (ok tt, f s)

abbrev pub guard : {S : Type 0} → Bool → Error → Exec S (Unit {0})
guard true e = pure tt
guard false e = raise e

-- `if err := m(); err != nil { return f(err) }`
abbrev pub wrap_error : {S A : Type 0} → (Error → Error) → Exec S A → Exec S A
wrap_error f m s =
    let (r, s') = m s in
    elim r [ ok a ↦ (ok a, s') | err e ↦ (err (f e), s') | panic ↦ (panic, s') ]

-- the end of a deferred cleanup: its own error is logged and dropped
abbrev pub rethrow : {S A : Type 0} → Error → Result (Unit {0}) × S → Result A × S
rethrow e (panic, s) = (panic, s)
rethrow e (ok a, s) = (err e, s)
rethrow e (err f, s) = (err e, s)

-- `defer func() { if retErr != nil { cleanup() } }()` before `m`; a panic leaves `retErr` nil.
abbrev pub on_error : {S A : Type 0} → Exec S (Unit {0}) → Exec S A → Exec S A
on_error cleanup m s =
    let (r, s') = m s in
    elim r [ ok a ↦ (ok a, s') | err e ↦ rethrow e (cleanup s') | panic ↦ (panic, s') ]

-- An error is passed over if the test holds of it.
abbrev pub unless : {S : Type 0} → (Error → Bool) → Exec S (Unit {0}) → Exec S (Unit {0})
unless test m s =
    let (r, s') = m s in
    elim r [
      | ok a ↦ (ok a, s')
      | err e ↦ (if test e then ok tt else err e, s')
      | panic ↦ (panic, s')
    ]

-- an error that the test holds of stands for an absent value
abbrev pub optional : {S A : Type 0} → (Error → Bool) → Exec S A → Exec S (Option A)
optional test m s =
    let (r, s') = m s in
    elim r [
      | ok a ↦ (ok (some a), s')
      | err e ↦ (if test e then ok none else err e, s')
      | panic ↦ (panic, s')
    ]

-- `defer cleanup()`, whose error nobody reads
abbrev pub finally : {S A : Type 0} → Exec S (Unit {0}) → Exec S A → Exec S A
finally cleanup m s = let (r, s') = m s in (r, (cleanup s').1)

-- an operation of a store that may fail
abbrev pub reads : {S A : Type 0} → (S → Result A) → Exec S A
reads f s = (f s, s)

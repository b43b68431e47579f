-- ===== src/Base/Errors.antt =====
-- Go's `error` values, and the outcome of a call: a value, an error or a panic.
use Prim.Native.String.{String}
use mathlib.Core.Path.{◌≡◌, refl}
use mathlib.Core.Logic.{◌⊎◌, inl, inr}
use mathlib.Core.List.{List}

-- `errorf` and `wrap` are `fmt.Errorf`: the format and its arguments, unrendered; `wrap` ends in
-- the error that `%v` prints. `fault` is an error of a service or library outside this repository.
pub data Error : Type 0 where
  errorf : String → List String → Error
  wrap : String → List String → Error → Error
  already_exist not_exist : Error
  fault : String → Error

pub data Result {ℓ} (A : Type ℓ) : Type ℓ where
  ok : A → Result A
  err : Error → Result A
  panic : Result A

abbrev pub map_result {ℓ κ} : {A : Type ℓ} {B : Type κ} → (A → B) → Result A → Result B
map_result f (ok a) = ok (f a)
map_result f (err e) = err e
map_result f panic = panic

pub Result-cases {ℓ} :
    {A : Type ℓ} (r : Result A) → ((a : A) × (r ≡ ok a)) ⊎ ((e : Error) × (r ≡ err e)) ⊎ (r ≡ panic)
Result-cases (ok a) = inl (a, refl)
Result-cases (err e) = inr (inl (e, refl))
Result-cases panic = inr (inr refl)

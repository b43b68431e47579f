-- ===== src/Base/Decimal.antt =====
-- `fmt.Sprintf("%d", n)` of a number below 10 ^ 20, which covers the program's integers.
use Prim.Native.Nat.{ℕ, zero, suc, ◌+◌, ◌*◌, ◌-◌, ◌/◌, ◌%◌, ◌^◌, ◌<◌}
use Prim.Native.Char.{Char, code}
use Prim.Native.String.{String}
use mathlib.Core.Path.{◌≡◌, refl, sym, ap, ◌∙◌}
use mathlib.Core.Bool.{true, false}
use mathlib.Core.Logic.{inl, inr}
use native.Mathlib.Nat.{pow-suc}
use native.Mathlib.Omega.{arith}
use cri_containerd.Base.Tests.{ltb, ltb→lt, Bool-cases, if◌then◌else◌, ◌==◌, nat_eq}
use cri_containerd.Base.Text.{lacks}

abbrev pub digit : ℕ → Char
digit zero = "0"
digit (suc zero) = "1"
digit (suc (suc zero)) = "2"
digit (suc (suc (suc zero))) = "3"
digit (suc (suc (suc (suc zero)))) = "4"
digit (suc (suc (suc (suc (suc zero))))) = "5"
digit (suc (suc (suc (suc (suc (suc zero)))))) = "6"
digit (suc (suc (suc (suc (suc (suc (suc zero))))))) = "7"
digit (suc (suc (suc (suc (suc (suc (suc (suc zero)))))))) = "8"
digit (suc (suc (suc (suc (suc (suc (suc (suc _)))))))) = "9"

-- the digits of `n`, of which there are at most as many as the fuel, before `out`
unfoldable pub emit : ℕ → ℕ → String → String
emit zero n out = out
emit (suc fuel) n out =
    let rest = emit fuel (n / 10) (String.◌∷◌ (digit (n % 10)) out) in
    if ltb n 10 then String.◌∷◌ (digit n) out else rest

abbrev pub max_digits : ℕ
max_digits = 20

unfoldable pub show_decimal : ℕ → String
unfolding emit
show_decimal n = emit max_digits n ""

-- the number that a text of digits stands for, read on from `acc`
unfoldable pub value : ℕ → String → ℕ
value acc String.[] = acc
value acc (String.◌∷◌ c s) = value (acc * 10 + (code c - 48)) s

pub code-digit : (k : ℕ) → k < 10 → code (digit k) ≡ 48 + k
code-digit zero h = refl
code-digit (suc zero) h = refl
code-digit (suc (suc zero)) h = refl
code-digit (suc (suc (suc zero))) h = refl
code-digit (suc (suc (suc (suc zero)))) h = refl
code-digit (suc (suc (suc (suc (suc zero))))) h = refl
code-digit (suc (suc (suc (suc (suc (suc zero)))))) h = refl
code-digit (suc (suc (suc (suc (suc (suc (suc zero))))))) h = refl
code-digit (suc (suc (suc (suc (suc (suc (suc (suc zero)))))))) h = refl
code-digit (suc (suc (suc (suc (suc (suc (suc (suc (suc zero))))))))) h = refl
code-digit (suc (suc (suc (suc (suc (suc (suc (suc (suc (suc k)))))))))) h = absurd (omega arith)

value-digit :
    (acc k : ℕ) (s : String) → k < 10 → value acc (String.◌∷◌ (digit k) s) ≡ value (acc * 10 + k) s
unfolding value
value-digit acc k s h = ap (λ d. value (acc * 10 + d) s) (omega (arith, code-digit k h))

div_lt : (n p : ℕ) → n < p * 10 → n / 10 < p
div_lt n p h = omega arith

value-emit : (fuel n : ℕ) (out : String) → n < 10 ^ fuel → value 0 (emit fuel n out) ≡ value n out
unfolding emit
value-emit zero n out h = ap (λ k. value k out) (omega arith)
value-emit (suc f) n out h = elim (Bool-cases (ltb n 10)) [
  | inl small ↦
      rw small (value-digit 0 n out (ltb→lt n 10 small) ∙ ap (λ k. value k out) (omega arith))
  | inr large ↦ rw large (
      value-emit f (n / 10) (String.◌∷◌ (digit (n % 10)) out) (div_lt n (10 ^ f) (rw pow-suc at h))
      ∙ value-digit (n / 10) (n % 10) out (omega arith)
      ∙ ap (λ k. value k out) (omega arith))
]

pub value-show_decimal : (n : ℕ) → n < 10 ^ 20 → value 0 (show_decimal n) ≡ n
unfolding show_decimal value
value-show_decimal n h = value-emit max_digits n "" h

-- Numbers below 10 ^ 20 are told apart by their decimal texts.
pub show_decimal_injective :
    (a b : ℕ) → a < 10 ^ 20 → b < 10 ^ 20 → show_decimal a ≡ show_decimal b → a ≡ b
unfolding show_decimal value
show_decimal_injective a b ha hb e =
    sym (value-emit max_digits a "" ha) ∙ ap (value 0) e ∙ value-emit max_digits b "" hb

-- a digit is no character past the digits
digit_ne : (sep : Char) (k : ℕ) → k < 10 → 57 < code sep → (code (digit k) == code sep) ≡ false
digit_ne sep k h past = rw code-digit (ground arith)

lacks-emit :
    (sep : Char) (fuel n : ℕ) (out : String)
    → 57 < code sep
    → lacks sep out ≡ true
    → lacks sep (emit fuel n out) ≡ true
unfolding emit lacks
lacks-emit sep zero n out past h = h
lacks-emit sep (suc f) n out past h = ground (
  arith,
  digit_ne sep n,
  digit_ne sep (n % 10),
  lacks-emit sep f (n / 10) (String.◌∷◌ (digit (n % 10)) out) past,
)

pub lacks-show_decimal : (sep : Char) (n : ℕ) → 57 < code sep → lacks sep (show_decimal n) ≡ true
unfolding show_decimal lacks
lacks-show_decimal sep n past = lacks-emit sep max_digits n "" past refl

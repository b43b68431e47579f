-- ===== src/Base/Parse.antt =====
-- `strconv.ParseInt(s, 10, 64)`, and the texts that it reads back.
use Prim.Native.Nat.{ℕ, zero, suc, ◌/◌, ◌%◌, ◌^◌, ◌<◌}
use Prim.Native.Char.{Char, code}
use Prim.Native.String.{String}
use mathlib.Core.Path.{◌≡◌, refl, ap, sym, ◌∙◌}
use mathlib.Core.Bool.{Bool, true, false, ◌&&◌}
use mathlib.Core.Logic.{◌≢◌}
use mathlib.Core.Option.{Option, none, some}
use text.Mathlib.TextEquality.{eq_iff}
use native.Mathlib.Omega.{arith}
use cri_containerd.Base.Tests.{ltb, leb, if◌then◌else◌, ◌==◌, nat_eq}
use cri_containerd.Base.Int.{ℤ, pos, negsuc, negate}
use cri_containerd.Base.Decimal.{
  digit, emit, value, max_digits, show_decimal, code-digit, value-show_decimal, lacks-show_decimal,
}
use cri_containerd.Base.Text.{lacks, cons_not_empty}

abbrev pub is_digit : Char → Bool
is_digit c = leb 48 (code c) && leb (code c) 57

-- Every character is a digit.
all_digits : String → Bool
all_digits String.[] = true
all_digits (String.◌∷◌ c s) = is_digit c && all_digits s

-- the number of a text of digits that is not empty; it is not bounded yet
unfoldable pub parse_digits : String → Option ℕ
unfolding all_digits
parse_digits String.[] = none
parse_digits (String.◌∷◌ c s) =
    if all_digits (String.◌∷◌ c s) then some (value 0 (String.◌∷◌ c s)) else none

-- the bounds of an `int64`
abbrev bounded : Bool → Option ℕ → Option ℤ
bounded negative none = none
bounded false (some n) = if ltb n (2 ^ 63) then some (pos n) else none
bounded true (some n) = if leb n (2 ^ 63) then some (negate n) else none

-- `none` for each of the errors
unfoldable pub parse_int : String → Option ℤ
unfolding parse_digits
parse_int String.[] = none
parse_int (String.◌∷◌ c s) =
    if code c == 45
    then bounded true (parse_digits s)
    else if code c == 43
    then bounded false (parse_digits s)
    else bounded false (parse_digits (String.◌∷◌ c s))

parse_int_tests :
    (parse_int "1000" ≡ some (pos 1000))
    × (parse_int "-7" ≡ some (negate 7))
    × (parse_int "" ≡ none)
    × (parse_int "root" ≡ none)
    × (parse_int "9223372036854775808" ≡ none)
unfolding parse_int value
parse_int_tests = (refl, refl, refl, refl, refl)

digit-is_digit : (k : ℕ) → k < 10 → is_digit (digit k) ≡ true
digit-is_digit k h = rw code-digit (ground arith)

all_digits-emit :
    (fuel n : ℕ) (out : String) → all_digits out ≡ true → all_digits (emit fuel n out) ≡ true
unfolding emit all_digits
all_digits-emit zero n out h = h
all_digits-emit (suc f) n out h = ground (
  arith,
  digit-is_digit n,
  digit-is_digit (n % 10),
  all_digits-emit f (n / 10) (String.◌∷◌ (digit (n % 10)) out),
)

-- a text of digits that is not empty is read as its value
parse_int-digits :
    (s : String)
    → all_digits s ≡ true
    → s ≢ ""
    → value 0 s < 2 ^ 63
    → parse_int s ≡ some (pos (value 0 s))
unfolding parse_int all_digits
parse_int-digits String.[] d n b = absurd (n refl)
parse_int-digits (String.◌∷◌ c s) d n b = ground arith

show_decimal_not_empty : (n : ℕ) → n < 10 ^ 20 → show_decimal n ≢ ""
unfolding show_decimal emit value
show_decimal_not_empty zero h e = ground (arith, e, eq_iff "0" "")
show_decimal_not_empty (suc n) h e =
    let wrong : 0 ≡ suc n = ap (value 0) (sym e) ∙ value-show_decimal (suc n) h in
    omega (arith, wrong)

parse_int-pos : (n : ℕ) → n < 2 ^ 63 → parse_int (show_decimal n) ≡ some (pos n)
unfolding show_decimal all_digits
parse_int-pos n h =
    let same : value 0 (show_decimal n) ≡ n = value-show_decimal n (omega arith) in
    parse_int-digits (show_decimal n) (all_digits-emit max_digits n "" refl)
      (show_decimal_not_empty n (omega arith)) (rw same h)
    ∙ ap (λ k. some (pos k)) same

-- a minus sign before digits
parse_int-minus :
    (s : String)
    → all_digits s ≡ true
    → s ≢ ""
    → 0 < value 0 s
    → value 0 s < suc (2 ^ 63)
    → parse_int (String.◌∷◌ "-" s) ≡ some (negate (value 0 s))
unfolding parse_int all_digits
parse_int-minus String.[] d n p b = absurd (n refl)
parse_int-minus (String.◌∷◌ c s) d n p b = ground arith

parse_int-negsuc :
    (n : ℕ) → n < 2 ^ 63 → parse_int (String.◌∷◌ "-" (show_decimal (suc n))) ≡ some (negsuc n)
unfolding show_decimal all_digits
parse_int-negsuc n h =
    let same : value 0 (show_decimal (suc n)) ≡ suc n = value-show_decimal (suc n) (omega arith) in
    parse_int-minus (show_decimal (suc n)) (all_digits-emit max_digits (suc n) "" refl)
      (show_decimal_not_empty (suc n) (omega arith)) (omega (arith, same)) (omega (arith, same))
    ∙ ap (λ k. some (negate k)) same

-- `fmt.Sprintf("%d", z)`
abbrev pub show_int : ℤ → String
show_int (pos n) = show_decimal n
show_int (negsuc n) = String.◌∷◌ "-" (show_decimal (suc n))

-- The values of an `int64`: from -2 ^ 63 to 2 ^ 63 - 1.
abbrev pub IsInt64 : ℤ → Type 0
IsInt64 (pos n) = n < 2 ^ 63
IsInt64 (negsuc n) = n < 2 ^ 63

-- `ParseInt` reads the decimal text of every `int64` back.
pub parse_int-show_int : (z : ℤ) → IsInt64 z → parse_int (show_int z) ≡ some z
parse_int-show_int (pos n) h = parse_int-pos n h
parse_int-show_int (negsuc n) h = parse_int-negsuc n h

pub show_int_not_empty : (z : ℤ) → IsInt64 z → show_int z ≢ ""
show_int_not_empty (pos n) h = show_decimal_not_empty n (omega arith)
show_int_not_empty (negsuc n) h = cons_not_empty "-" (show_decimal (suc n))

pub lacks-show_int : (z : ℤ) → lacks ":" (show_int z) ≡ true
unfolding lacks
lacks-show_int (pos n) = lacks-show_decimal ":" n (omega arith)
lacks-show_int (negsuc n) = lacks-show_decimal ":" (suc n) (omega arith)

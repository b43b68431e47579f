-- ===== src/Base/Text.antt =====
-- `strings.Split` and `strings.Join`, over a separator of one character.
use Prim.Native.Nat.{ℕ}
use Prim.Native.Char.{Char, code}
use Prim.Native.String
use Prim.Native.String.{String}
use Prim.Native.String.append
use mathlib.Core.Path.{◌≡◌, refl, ap, sym, ◌∙◌}
use mathlib.Core.Bool.{Bool, true, not, ◌&&◌}
use mathlib.Core.Logic.{◌≢◌, inl, inr}
use mathlib.Core.Option
use mathlib.Core.Option.{Option, none, some}
use mathlib.Core.List.{List, [], ◌∷◌}
use native.Mathlib.Omega.{arith}
use cri_containerd.Base.Tests.{Bool-cases, string_eq, ◌==◌, nat_eq, nat_beq_iff, if◌then◌else◌}

infixr 65 ◌+s+◌
abbrev pub ◌+s+◌ : String → String → String
◌+s+◌ = String.◌++◌

abbrev pub one : Char → String
one c = String.◌∷◌ c String.[]

-- `c` at the front of the first part
abbrev pub push : Char → List String → List String
push c [] = one c ∷ []
push c (x ∷ xs) = String.◌∷◌ c x ∷ xs

-- `strings.Split(s, sep)`
unfoldable pub split : Char → String → List String
split sep String.[] = "" ∷ []
split sep (String.◌∷◌ c s) =
    let rest = split sep s in if code c == code sep then "" ∷ rest else push c rest

-- `strings.SplitN(s, sep, 2)`, if it has two fields
unfoldable pub cut : Char → String → Option (String × String)
cut sep String.[] = none
cut sep (String.◌∷◌ c s) =
    let rest = cut sep s in
    if code c == code sep then some ("", s) else Option.map (λ p. (String.◌∷◌ c p.0, p.1)) rest

trim_right : ℕ → String → String
trim_right c String.[] = ""
trim_right c (String.◌∷◌ d s) =
    let rest = trim_right c s in if rest == "" && code d == c then "" else String.◌∷◌ d rest

trim_left : ℕ → String → String
trim_left c String.[] = ""
trim_left c (String.◌∷◌ d s) =
    let rest = trim_left c s in if code d == c then rest else String.◌∷◌ d s

-- `strings.Trim` of one character, given by its code
unfoldable pub trim : ℕ → String → String
unfolding trim_left trim_right
trim c s = trim_right c (trim_left c s)

-- `strings.Join(xs, sep)`
unfoldable pub join : Char → List String → String
join sep [] = ""
join sep (x ∷ []) = x
join sep (x ∷ y ∷ ys) = x +s+ String.◌∷◌ sep (join sep (y ∷ ys))

-- `sep` does not occur in the text.
unfoldable pub lacks : Char → String → Bool
lacks sep String.[] = true
lacks sep (String.◌∷◌ c s) = not (code c == code sep) && lacks sep s

abbrev pub AllLack : Char → List String → Type 0
AllLack sep [] = Unit
AllLack sep (x ∷ xs) = (lacks sep x ≡ true) × AllLack sep xs

push_cons : (c : Char) (xs : List String) → (x : String) × (ys : List String) × (push c xs ≡ x ∷ ys)
push_cons c [] = (one c, [], refl)
push_cons c (x ∷ xs) = (String.◌∷◌ c x, xs, refl)

-- There is always a first part.
pub split-cons :
    (sep : Char) (s : String) → (x : String) × (ys : List String) × (split sep s ≡ x ∷ ys)
unfolding split
split-cons sep String.[] = ("", [], refl)
split-cons sep (String.◌∷◌ c s) = elim (Bool-cases (code c == code sep)) [
  | inl e ↦ ("", split sep s, rw (e, split) refl)
  | inr n ↦ let (x, ys, e) = push_cons c (split sep s) in (x, ys, rw (n, split) e)
]

pub split-lacks : (sep : Char) (s : String) → lacks sep s ≡ true → split sep s ≡ s ∷ []
unfolding split lacks
split-lacks sep String.[] h = refl
split-lacks sep (String.◌∷◌ c s) h = ground (arith, split-lacks sep s)

pub split-append :
    (sep : Char) (s t : String)
    → lacks sep s ≡ true
    → split sep (s +s+ String.◌∷◌ sep t) ≡ s ∷ split sep t
unfolding split lacks
split-append sep String.[] t h = rw append.nil (ground (arith, nat_beq_iff (code sep) (code sep)))
split-append sep (String.◌∷◌ c s) t h = rw append.cons (ground (arith, split-append sep s t))

-- Splitting what was joined gives the parts back, if no part has the separator.
pub split-join :
    (sep : Char) (x : String) (xs : List String)
    → AllLack sep (x ∷ xs)
    → split sep (join sep (x ∷ xs)) ≡ x ∷ xs
unfolding join
split-join sep x [] h = split-lacks sep x h.0
split-join sep x (y ∷ ys) h =
    split-append sep x (join sep (y ∷ ys)) h.0 ∙ ap (λ r. x ∷ r) (split-join sep y ys h.1)

-- Lists of parts that lack the separator are told apart by what they join to.
pub join_injective :
    (sep : Char) (x y : String) (xs ys : List String)
    → AllLack sep (x ∷ xs)
    → AllLack sep (y ∷ ys)
    → join sep (x ∷ xs) ≡ join sep (y ∷ ys)
    → ◌≡◌ {A = List String} (x ∷ xs) (y ∷ ys)
join_injective sep x y xs ys hx hy e =
    sym (split-join sep x xs hx) ∙ ap (split sep) e ∙ split-join sep y ys hy

pub cons_not_empty : (c : Char) (s : String) → String.◌∷◌ c s ≢ ""
cons_not_empty c s e = cc

tail : String → String
tail String.[] = ""
tail (String.◌∷◌ c s) = s

-- A text with more after it is another text.
pub append_longer : (s t : String) (c : Char) → s +s+ String.◌∷◌ c t ≢ s
unfolding tail
append_longer String.[] t c e = absurd (cons_not_empty c t (rw append.nil at e))
append_longer (String.◌∷◌ d s) t c e = append_longer s t c (ap tail (rw append.cons at e))

append_assoc : (s t u : String) → (s +s+ t) +s+ u ≡ s +s+ t +s+ u
append_assoc String.[] t u = simp append.nil
append_assoc (String.◌∷◌ c s) t u = simp append.cons (ap (String.◌∷◌ c) (append_assoc s t u))

-- What was joined within the first part cannot be told from what was joined within the second.
pub join_nested :
    (sep : Char) (x y z w : String) (xs : List String)
    → join sep (join sep (x ∷ y ∷ []) ∷ z ∷ w ∷ xs) ≡ join sep (x ∷ join sep (y ∷ z ∷ []) ∷ w ∷ xs)
unfolding join
join_nested sep x y z w xs = simp (append_assoc, append.cons)

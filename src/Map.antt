-- ===== src/Map.antt =====
-- Go's `map[string]V`. Entries stand in the order of insertion; Go iterates in any order, so what
-- is stated of an iteration is stated of the members of its result.
use cri_containerd.Base.{
  String, ◌≡◌, refl, Option, none, some, List, [], ◌∷◌, arith, ◌==◌, if◌then◌else◌, string_eq,
}
use text.Mathlib.TextEquality.{eq_iff}

abbrev pub Map {ℓ} : Type ℓ → Type ℓ
Map V = List (String × V)

module _ {ℓ} {V : Type ℓ} where
  -- `for _, v := range m`
  unfoldable pub values : Map V → List V
  values [] = []
  values ((key, v) ∷ m) = v ∷ values m

  -- `v, ok := m[key]`
  unfoldable pub lookup : String → Map V → Option V
  lookup key [] = none
  lookup key ((first, v) ∷ m) = if first == key then some v else lookup key m

  -- `delete(m, key)`
  unfoldable pub erase : String → Map V → Map V
  erase key [] = []
  erase key ((first, v) ∷ m) =
      let rest = erase key m in if first == key then rest else (first, v) ∷ rest

  pub lookup-erase :
      (key asked : String) (m : Map V)
      → lookup asked (erase key m) ≡ (if key == asked then none else lookup asked m)
  unfolding lookup erase
  lookup-erase key asked [] = ground arith
  lookup-erase key asked ((first, v) ∷ m) =
      ground
        (arith, lookup-erase key asked m, eq_iff first key, eq_iff first asked, eq_iff key asked)

  -- `m[key] = v`
  unfoldable pub insert : String → V → Map V → Map V
  insert key v [] = (key, v) ∷ []
  insert key v ((first, old) ∷ m) =
      if first == key then (key, v) ∷ m else (first, old) ∷ insert key v m

  pub lookup-insert :
      (key asked : String) (v : V) (m : Map V)
      → lookup asked (insert key v m) ≡ (if key == asked then some v else lookup asked m)
  unfolding lookup insert
  lookup-insert key asked v [] = refl
  lookup-insert key asked v ((first, old) ∷ m) =
      ground
        (arith, lookup-insert key asked v m, eq_iff key asked, eq_iff first key, eq_iff first asked)

pub lookup-nil {ℓ} : {V : Type ℓ} (k : String) → lookup {V = V} k [] ≡ none
unfolding lookup
lookup-nil k = refl

pub ruleset map_laws = (lookup-nil, lookup-insert, lookup-erase)

-- ===== src/Registrar/Operations.antt =====
-- The operations of the registrar, pkg/registrar/registrar.go, as its callers see them.
use text.Mathlib.TextEquality.{eq_iff}
use text.Mathlib.TextPositions.{eq_refl}
use cri_containerd.Base.{
  String, ◌≡◌, ◌≢◌, ◌⊎◌, ◌↔◌, none, some, arith, inl, inr, Option-cases, ◌==◌, string_eq,
  if◌then◌else◌,
}
use cri_containerd.Map.{lookup, lookup-insert, lookup-erase}
use cri_containerd.Registrar.{Registrar, reserve, release_by_name, release_by_key}
use cri_containerd.Registrar.Bijection.{IsBijection}

-- `name` and `key` are paired with one another, or neither is paired.
abbrev pub IsReservable : String → String → Registrar → Type 0
IsReservable name key r =
    ((lookup name r.name_to_key ≡ some key) × (lookup key r.key_to_name ≡ some name))
    ⊎ ((lookup name r.name_to_key ≡ none) × (lookup key r.key_to_name ≡ none))

-- `Reserve` succeeds exactly when neither argument is empty and the two are paired with one
-- another already, or both free.
pub reserve_succeeds :
    (name key : String) (r : Registrar)
    → IsBijection r
    → ((reserve name key r).1 ≡ none) ↔ ((name ≢ "") × (key ≢ "") × IsReservable name key r)
unfolding reserve
reserve_succeeds name key r h = (
  λ e. elim (Option-cases (lookup name r.name_to_key)) [
    | inr (k, p) ↦ ground (arith, eq_iff name "", eq_iff key "", eq_iff k key, h.forward name k p)
    | inl p ↦ elim (Option-cases (lookup key r.key_to_name)) [
      | inr (n, q) ↦
          ground (arith, eq_iff name "", eq_iff key "", h.backward n key q, eq_iff n name)
      | inl q ↦ ground (arith, eq_iff name "", eq_iff key "")
    ]
  ],
  λ e. ground (arith, eq_iff name "", eq_iff key "", eq_refl name, eq_refl key),
)

-- After a `Reserve` that succeeds the name leads to the key and the key to the name, and every
-- other name keeps its key; a `Reserve` that fails changes nothing.
pub reserve_effect :
    (name key n : String) (r : Registrar)
    → IsBijection r
    → let (r', e) = reserve name key r in
      ((e ≡ none)
        × (lookup key r'.key_to_name ≡ some name)
        × (lookup n r'.name_to_key ≡ (if name == n then some key else lookup n r.name_to_key)))
      ⊎ ((e ≢ none) × (r' ≡ r))
unfolding reserve
reserve_effect name key n r h = elim (Option-cases (lookup name r.name_to_key)) [
  | inr (k, p) ↦ ground (arith, eq_iff k key, eq_iff name n, h.forward name k p)
  | inl p ↦ elim (Option-cases (lookup key r.key_to_name)) [
    | inr (m, q) ↦ ground (arith, eq_iff m name, eq_iff name n, h.backward m key q)
    | inl q ↦ ground (
      arith,
      eq_iff name n,
      eq_refl key,
      lookup-insert key key name r.key_to_name,
      lookup-insert name n key r.name_to_key,
    )
  ]
]

-- Once released, by name or by key, the name and the key can be reserved again, also with others.
pub reserve-release :
    (name key : String) (r : Registrar)
    → IsBijection r
    → lookup name r.name_to_key ≡ some key
    → (release_by_name name r ≡ release_by_key key r)
      × ((name' key' : String)
          → name' ≢ ""
          → key' ≢ ""
          → (name' ≡ name) ⊎ (lookup name' r.name_to_key ≡ none)
          → (key' ≡ key) ⊎ (lookup key' r.key_to_name ≡ none)
          → (reserve name' key' (release_by_name name r)).1 ≡ none)
unfolding reserve release_by_name release_by_key
reserve-release name key r h paired = (
  ground (arith, h.forward name key paired),
  λ name' key' nn nk fn fk. ground (
    arith,
    paired,
    eq_iff name' "",
    eq_iff key' "",
    eq_iff name name',
    eq_iff key key',
    lookup-erase name name' r.name_to_key,
    lookup-erase key key' r.key_to_name,
  ),
)

-- After a release by name the name has no key, and every other name keeps its key.
pub release_by_name_frees :
    (name : String) (r : Registrar)
    → (lookup name (release_by_name name r).name_to_key ≡ none)
      × ((n : String)
          → n ≢ name
          → lookup n (release_by_name name r).name_to_key ≡ lookup n r.name_to_key)
unfolding release_by_name
release_by_name_frees name r = elim (Option-cases (lookup name r.name_to_key)) [
  | inl e ↦ (ground (arith, e), λ n other. ground (arith, e))
  | inr (k, e) ↦ (
    ground (arith, e, lookup-erase name name r.name_to_key, eq_refl name),
    λ n other. ground (arith, e, lookup-erase name n r.name_to_key, eq_iff name n),
  )
]

-- After a release by key the key has no name.
pub release_by_key_frees :
    (key : String) (r : Registrar) → lookup key (release_by_key key r).key_to_name ≡ none
unfolding release_by_key
release_by_key_frees key r = elim (Option-cases (lookup key r.key_to_name)) [
  | inl e ↦ ground (arith, e)
  | inr (n, e) ↦ ground (arith, e, lookup-erase key key r.key_to_name, eq_refl key)
]

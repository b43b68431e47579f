-- ===== src/Registrar.antt =====
-- pkg/registrar/registrar.go: one-to-one mappings between names and keys.
pub mod Bijection
pub mod Operations
use cri_containerd.Base.{
  String, Bool, Option, none, some, List, [], ◌∷◌, not, ◌||◌, ◌==◌, string_eq, if◌then◌else◌, Error,
  errorf,
}
use cri_containerd.Map.{Map, lookup, insert, erase}

pub record Registrar : Type 0 where
  pub name_to_key : Map String
  pub key_to_name : Map String

abbrev pub new_registrar : Registrar
new_registrar = record { name_to_key = []; key_to_name = [] }

-- what `Reserve` writes
add_pair : String → String → Registrar → Registrar
add_pair name key r = record r {
  name_to_key = insert name key r.name_to_key;
  key_to_name = insert key name r.key_to_name;
}

-- what both releases delete
drop_pair : String → String → Registrar → Registrar
drop_pair name key r = record r {
  name_to_key = erase name r.name_to_key;
  key_to_name = erase key r.key_to_name;
}

-- `none` is a nil error.
reserve_key : String → String → Option String → Registrar → Registrar × Option Error
reserve_key name key (some n) r =
    if n == name then (r, none) else (r, some (errorf "key %q is reserved for %q" (key ∷ n ∷ [])))
reserve_key name key none r = (add_pair name key r, none)

reserve_name : String → String → Option String → Registrar → Registrar × Option Error
unfolding reserve_key add_pair
reserve_name name key (some k) r =
    if k == key then (r, none) else (r, some (errorf "name %q is reserved for %q" (name ∷ k ∷ [])))
reserve_name name key none r = reserve_key name key (lookup key r.key_to_name) r

unfoldable pub reserve : String → String → Registrar → Registrar × Option Error
unfolding reserve_name
reserve name key r =
    if name == "" || key == ""
    then (r, some (errorf "invalid name %q or key %q" (name ∷ key ∷ [])))
    else reserve_name name key (lookup name r.name_to_key) r

unfoldable pub release_by_name : String → Registrar → Registrar
unfolding drop_pair
release_by_name name r = elim (lookup name r.name_to_key) [
  | none ↦ r
  | some key ↦ drop_pair name key r
]

unfoldable pub release_by_key : String → Registrar → Registrar
unfolding drop_pair
release_by_key key r = elim (lookup key r.key_to_name) [
  | none ↦ r
  | some name ↦ drop_pair name key r
]

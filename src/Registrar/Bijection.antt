-- ===== src/Registrar/Bijection.antt =====
-- The two indexes of the registrar, pkg/registrar/registrar.go.
use text.Mathlib.TextEquality.{eq_iff}
use cri_containerd.Base.{String, ◌≡◌, none, some, arith, inl, inr, Option-cases, string_eq}
use cri_containerd.Map.{lookup, lookup-insert, lookup-erase}
use cri_containerd.Registrar.{
  Registrar, new_registrar, add_pair, drop_pair, reserve, release_by_name, release_by_key,
}

-- A name is mapped to a key exactly when the key is mapped to the name.
pub record IsBijection (r : Registrar) : Type 0 where
  pub forward : (n k : String) → lookup n r.name_to_key ≡ some k → lookup k r.key_to_name ≡ some n
  pub backward : (n k : String) → lookup k r.key_to_name ≡ some n → lookup n r.name_to_key ≡ some k

pub new_registrar-IsBijection : IsBijection new_registrar
unfolding lookup
new_registrar-IsBijection = record { forward = λ n k h. cc; backward = λ n k h. cc }

module _ (name key : String) (r : Registrar) (h : IsBijection r) where
  add_pair-IsBijection :
      lookup name r.name_to_key ≡ none
      → lookup key r.key_to_name ≡ none
      → IsBijection (add_pair name key r)
  unfolding add_pair
  add_pair-IsBijection free_name free_key = record {
    forward =
        λ n k. simp lookup-insert (ground (arith, eq_iff name n, eq_iff key k, h.forward n k));
    backward =
        λ n k. simp lookup-insert (ground (arith, eq_iff name n, eq_iff key k, h.backward n k));
  }

  drop_pair-IsBijection : lookup name r.name_to_key ≡ some key → IsBijection (drop_pair name key r)
  unfolding drop_pair
  drop_pair-IsBijection paired = record {
    forward = λ n k. simp lookup-erase (
        ground
          (arith, eq_iff name n, eq_iff key k, h.forward n k, h.forward name key, h.backward n k));
    backward = λ n k. simp lookup-erase (
        ground
          (arith, eq_iff name n, eq_iff key k, h.forward n k, h.forward name key, h.backward n k));
  }

  -- `Reserve` keeps the two indexes inverse to one another, whether it succeeds or not.
  pub reserve-IsBijection : IsBijection (reserve name key r).0
  unfolding reserve add_pair
  reserve-IsBijection = ground (arith, add_pair-IsBijection)

-- Both releases keep the two indexes inverse to one another.
pub release-IsBijection :
    (name key : String) (r : Registrar)
    → IsBijection r
    → IsBijection (release_by_name name r) × IsBijection (release_by_key key r)
unfolding release_by_name release_by_key
release-IsBijection name key r h = (
  elim (Option-cases (lookup name r.name_to_key)) [
    | inl e ↦ rw (e, release_by_name) h
    | inr (k, e) ↦ rw (e, release_by_name) (drop_pair-IsBijection name k r h e)
  ],
  elim (Option-cases (lookup key r.key_to_name)) [
    | inl e ↦ rw (e, release_by_key) h
    | inr (n, e) ↦ rw (e, release_by_key) (drop_pair-IsBijection n key r h (h.backward n key e))
  ],
)

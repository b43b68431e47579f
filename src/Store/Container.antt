-- ===== src/Store/Container.antt =====
-- pkg/store/container/container.go: the containers by id.
use cri_containerd.Base.{
  ◌≡◌, ◌⊎◌, inl, inr, Option-cases, ℕ, String, Option, none, some, List, [], Result, ok, err, Error,
  already_exist, not_exist,
}
use cri_containerd.Cri.{ContainerConfig}
use cri_containerd.Map.{Map, lookup, insert, erase, values}

pub record Metadata : Type 0 where
  pub id : String
  pub name : String
  pub sandbox_id : String
  pub config : ContainerConfig
  pub image_ref : String

-- `status` is the address of the container's status storage; `none` is the nil of `Container{}`.
pub record Container : Type 0 where
  pub metadata : Metadata
  pub status : Option ℕ

abbrev pub Containers : Type 0
Containers = Map Container

abbrev pub new_store : Containers
new_store = []

unfoldable pub add : Container → Containers → Option Error × Containers
add c s = elim (lookup c.metadata.id s) [
  | some _ ↦ (some already_exist, s)
  | none ↦ (none, insert c.metadata.id c s)
]

unfoldable pub get : String → Containers → Result Container
get id s = elim (lookup id s) [ some c ↦ ok c | none ↦ err not_exist ]

unfoldable pub list : Containers → List Container
list s = values s

unfoldable pub delete : String → Containers → Containers
delete id s = erase id s

pub get-cases :
    (id : String) (s : Containers)
    → ((c : Container) × (get id s ≡ ok c)) ⊎ (get id s ≡ err not_exist)
unfolding get
get-cases id s = elim (Option-cases (lookup id s)) [
  | inl e ↦ inr (rw (e, get))
  | inr (c, e) ↦ inl (c, rw (e, get))
]

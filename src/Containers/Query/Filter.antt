-- ===== src/Containers/Query/Filter.antt =====
-- The filter of `ListContainers` against the fields of a request.
use mathlib.Core.List.{Memᴰ}
use text.Mathlib.TextEquality.{eq_iff}
use cri_containerd.Base.{
  String, ◌≡◌, ◌≢◌, ◌↔◌, inl, inr, refl, true, none, some, arith, Option, List, [], ◌∷◌, string_eq,
  Option-cases,
}
use cri_containerd.Base.Keep.{keep, Memᴰ-keep}
use cri_containerd.Cri.{ContainerState, state_eq, state_beq_iff}
use cri_containerd.Map.{Map, lookup}
use cri_containerd.Containers.Query.{
  CriContainer, ContainerFilter, match_labels, selects, filter_cri_containers, label_is,
}

-- Every label of the selector is a label of the container.
abbrev pub HasLabels : Map String → Map String → Type 0
HasLabels selector labels = (k v : String) → Memᴰ (k, v) selector → lookup k labels ≡ some v

label_is_iff : (v : String) (o : Option String) → (label_is v o ≡ true) ↔ (o ≡ some v)
label_is_iff v none = (λ h. cc, λ h. cc)
label_is_iff v (some got) = (λ h. ground (arith, eq_iff got v), λ h. ground (arith, eq_iff got v))

pub match_labels-HasLabels :
    (selector labels : Map String) → match_labels selector labels ≡ true → HasLabels selector labels
unfolding match_labels
match_labels-HasLabels [] labels h k' v' m = elim m [ ]
match_labels-HasLabels ((k, v) ∷ selector) labels h k' v' (Memᴰ.head e) =
    ground (arith, e, label_is_iff v (lookup k labels))
match_labels-HasLabels ((k, v) ∷ selector) labels h k' v' (Memᴰ.tail m) =
    match_labels-HasLabels selector labels (ground arith) k' v' m

pub HasLabels-match_labels :
    (selector labels : Map String) → HasLabels selector labels → match_labels selector labels ≡ true
unfolding match_labels
HasLabels-match_labels [] labels h = refl
HasLabels-match_labels ((k, v) ∷ selector) labels h = ground (
  arith,
  label_is_iff v (lookup k labels),
  h k v (Memᴰ.head refl),
  HasLabels-match_labels selector labels (λ k' v' m. h k' v' (Memᴰ.tail m)),
)

-- What a filter asks for: an empty field asks for nothing.
pub record Matches (f : ContainerFilter) (c : CriContainer) : Type 0 where
  pub id_matches : f.id ≢ "" → c.id ≡ f.id
  pub sandbox_matches : f.pod_sandbox_id ≢ "" → c.pod_sandbox_id ≡ f.pod_sandbox_id
  pub state_matches : (want : ContainerState) → f.state ≡ some want → c.state ≡ want
  pub labels_match : HasLabels f.label_selector c.labels

selects-Matches : (f : ContainerFilter) (c : CriContainer) → selects f c ≡ true → Matches f c
unfolding selects
selects-Matches f c h = record {
  id_matches = λ n. ground (arith, eq_iff f.id "", eq_iff f.id c.id);
  sandbox_matches =
      λ n. ground (arith, eq_iff f.pod_sandbox_id "", eq_iff f.pod_sandbox_id c.pod_sandbox_id);
  state_matches = λ want e. ground (arith, e, state_beq_iff want c.state);
  labels_match = match_labels-HasLabels f.label_selector c.labels (ground arith);
}

Matches-selects : (f : ContainerFilter) (c : CriContainer) → Matches f c → selects f c ≡ true
unfolding selects
Matches-selects f c m = elim (Option-cases f.state) [
  | inl any ↦ ground (
    arith,
    any,
    eq_iff f.id "",
    eq_iff f.id c.id,
    eq_iff f.pod_sandbox_id "",
    eq_iff f.pod_sandbox_id c.pod_sandbox_id,
    m.id_matches,
    m.sandbox_matches,
    HasLabels-match_labels f.label_selector c.labels m.labels_match,
  )
  | inr (want, e) ↦ ground (
    arith,
    m.state_matches want e,
    state_beq_iff want c.state,
    eq_iff f.id "",
    eq_iff f.id c.id,
    eq_iff f.pod_sandbox_id "",
    eq_iff f.pod_sandbox_id c.pod_sandbox_id,
    m.id_matches,
    m.sandbox_matches,
    HasLabels-match_labels f.label_selector c.labels m.labels_match,
  )
]

-- `ListContainers` returns the containers that match the filter, all of them and no others; without
-- a filter it returns all.
pub filter_cri_containers_exact :
    (o : Option ContainerFilter) (c : CriContainer) (cs : List CriContainer)
    → Memᴰ c (filter_cri_containers o cs)
      ↔ (Memᴰ c cs × ((f : ContainerFilter) → o ≡ some f → Matches f c))
unfolding filter_cri_containers
filter_cri_containers_exact none c cs = (λ m. (m, λ f e. cc), λ m. m.0)
filter_cri_containers_exact (some f) c cs =
    let exact : Memᴰ c (keep (selects f) cs) ↔ (Memᴰ c cs × (selects f c ≡ true)) =
      Memᴰ-keep (selects f) c cs in
    (
      λ m.
          let (here, passes) = exact.0 m in
          (here, λ g e. ground (arith, selects-Matches f c passes)),
      λ m. exact.1 (m.0, Matches-selects f c (m.1 f refl)),
    )

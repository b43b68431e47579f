-- ===== src/Sandboxes/Query/Filter.antt =====
-- The filter of `ListPodSandbox` against the fields of a request.
use mathlib.Core.List.{Memᴰ}
use text.Mathlib.TextEquality.{eq_iff}
use cri_containerd.Base.{
  ◌≡◌, ◌≢◌, ◌↔◌, inl, inr, refl, true, none, some, arith, Option, List, string_eq, Option-cases,
}
use cri_containerd.Base.Keep.{keep, Memᴰ-keep}
use cri_containerd.Cri.{PodSandboxState, sandbox_state_eq, sandbox_state_beq_iff}
use cri_containerd.Containers.Query.{match_labels}
use cri_containerd.Containers.Query.Filter.{
  HasLabels, match_labels-HasLabels, HasLabels-match_labels,
}
use cri_containerd.Sandboxes.Query.{CriSandbox, SandboxFilter, selects, filter_cri_sandboxes}

-- What a filter asks for: an empty field asks for nothing.
pub record Matches (f : SandboxFilter) (s : CriSandbox) : Type 0 where
  pub id_matches : f.id ≢ "" → s.id ≡ f.id
  pub state_matches : (want : PodSandboxState) → f.state ≡ some want → s.state ≡ want
  pub labels_match : HasLabels f.label_selector s.labels

selects-Matches : (f : SandboxFilter) (s : CriSandbox) → selects f s ≡ true → Matches f s
unfolding selects
selects-Matches f s h = record {
  id_matches = λ n. ground (arith, eq_iff f.id "", eq_iff f.id s.id);
  state_matches = λ want e. ground (arith, e, sandbox_state_beq_iff want s.state);
  labels_match = match_labels-HasLabels f.label_selector s.labels (ground arith);
}

Matches-selects : (f : SandboxFilter) (s : CriSandbox) → Matches f s → selects f s ≡ true
unfolding selects
Matches-selects f s m =
    let labels : match_labels f.label_selector s.labels ≡ true =
      HasLabels-match_labels f.label_selector s.labels m.labels_match in
    elim (Option-cases f.state) [
      | inl any ↦ ground (arith, any, eq_iff f.id "", eq_iff f.id s.id, m.id_matches, labels)
      | inr (want, e) ↦ ground (
        arith,
        m.state_matches want e,
        sandbox_state_beq_iff want s.state,
        eq_iff f.id "",
        eq_iff f.id s.id,
        m.id_matches,
        labels,
      )
    ]

-- The filter of `ListPodSandbox` returns the sandboxes that match all its fields, and no others;
-- without a filter it returns all.
pub filter_cri_sandboxes_exact :
    (o : Option SandboxFilter) (s : CriSandbox) (ss : List CriSandbox)
    → Memᴰ s (filter_cri_sandboxes o ss)
      ↔ (Memᴰ s ss × ((f : SandboxFilter) → o ≡ some f → Matches f s))
unfolding filter_cri_sandboxes
filter_cri_sandboxes_exact none s ss = (λ m. (m, λ f e. cc), λ m. m.0)
filter_cri_sandboxes_exact (some f) s ss =
    let exact : Memᴰ s (keep (selects f) ss) ↔ (Memᴰ s ss × (selects f s ≡ true)) =
      Memᴰ-keep (selects f) s ss in
    (
      λ m.
          let (here, passes) = exact.0 m in
          (here, λ g e. ground (arith, selects-Matches f s passes)),
      λ m. exact.1 (m.0, Matches-selects f s (m.1 f refl)),
    )

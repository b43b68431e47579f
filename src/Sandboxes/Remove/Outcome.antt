-- ===== src/Sandboxes/Remove/Outcome.antt =====
-- What `RemovePodSandbox` leaves behind.
use mathlib.Core.Path.{subst}
use mathlib.Core.List.{Memᴰ}
use text.Mathlib.TextEquality.{eq_iff}
use text.Mathlib.TextPositions.{eq_refl}
use cri_containerd.Base.{
  wrap, sym, ap, ◌∙◌, String, ◌≡◌, refl, Bool-cases, none, some, List, [], ◌∷◌, ok, err, panic,
  Result, arith, inl, inr, Option-cases, ◌==◌, string_eq, not_exist,
}
use cri_containerd.Base.Keep.{head_or_tail}
use cri_containerd.Map.{lookup, lookup-erase}
use cri_containerd.Registrar.Operations.{release_by_key_frees}
use cri_containerd.Store.Container
use cri_containerd.Store.Container.{Container}
use cri_containerd.Store.Sandbox
use cri_containerd.Store.Sandbox.{Sandbox}
use cri_containerd.Exec.{◌>>◌}
use cri_containerd.Exec.Ends.{wrap_state, bind_ends}
use cri_containerd.Exec.Keeps.{Keeps}
use cri_containerd.Service.{State, Env}
use cri_containerd.Service.Frame.{Outside, outside_rules}
use cri_containerd.Containers.Remove.{remove_container}
use cri_containerd.Containers.Remove.Outcome.{remove_container_outcome}
use cri_containerd.Sandboxes.Remove.{
  remove_member, remove_members, check_stopped, remove_sandbox_resources, forget_sandbox,
  remove_found_sandbox, remove_pod_sandbox,
}
use cri_containerd.Sandboxes.Remove.Shrunk.{
  Gone, IsStored, Removed-Gone, Shrunk, Shrunk-IsStored, Shrunk-absent, Shrunk-refl, Shrunk-trans,
}

module _ (env : Env) where
  open env use {World}

  remove_container-Gone :
      (id : String) (s : State World) → IsStored s → Gone s id (remove_container env id s)
  unfolding remove_container Container.get
  remove_container-Gone id s h = elim (Option-cases (lookup id s.containers)) [
    | inl missing ↦ rw (missing, Gone, remove_container) (Shrunk-refl s, λ e. missing)
    | inr (c, found) ↦ elim (Option-cases c.status) [
      | inl bare ↦ absurd (h.backed id c found bare)
      | inr (a, stored) ↦
          subst (λ j. Gone s j (remove_container env id s)) (h.keyed id c found)
            (Removed-Gone c a s (remove_container env id s)
              (remove_container_outcome env id c a s (rw (found, Container.get) refl) stored))
    ]
  ]

  -- what the step for one container of the store leaves
  remove_member-Gone :
      (id : String) (c : Container) (s : State World)
      → IsStored s
      → Shrunk s (remove_member env id c s).1
        × ((remove_member env id c s).0 ≡ ok tt
            → c.metadata.sandbox_id ≡ id
            → lookup c.metadata.id (remove_member env id c s).1.containers ≡ none)
  unfolding remove_member
  remove_member-Gone id c s h =
      let (shrunk, gone) = remove_container-Gone c.metadata.id s h in
      elim (Bool-cases (c.metadata.sandbox_id == id)) [
        | inl ours ↦ (
          rw (ours, remove_member)
              (subst (Shrunk s)
                (sym (
                  wrap_state (wrap "failed to remove container %q: %v" (c.metadata.id ∷ []))
                    (remove_container env c.metadata.id s)))
                shrunk),
          λ e m. ground (arith, ours, e, gone),
        )
        | inr other ↦ (
          rw (other, remove_member) (Shrunk-refl s),
          λ e m. ground (arith, other, m, eq_iff c.metadata.sandbox_id id),
        )
      ]

  -- the containers of the sandbox among the given ones are out of the store
  abbrev NoMembers : String → List Container → State World → Type 0
  NoMembers id cs s =
      (c : Container)
      → Memᴰ c cs
      → c.metadata.sandbox_id ≡ id
      → lookup c.metadata.id s.containers ≡ none

  remove_members-Gone :
      (id : String) (cs : List Container) (s : State World)
      → IsStored s
      → Shrunk s (remove_members env id cs s).1
        × ((remove_members env id cs s).0 ≡ ok tt → NoMembers id cs (remove_members env id cs s).1)
  unfolding remove_members
  remove_members-Gone id [] s h = (Shrunk-refl s, λ e c m. elim m [ ])
  remove_members-Gone id (d ∷ cs) s h =
      let (first, gone) = remove_member-Gone id d s h in
      let s1 : State World = (remove_member env id d s).1 in
      let (rest, others) = remove_members-Gone id cs s1 (Shrunk-IsStored s s1 first h) in
      bind_ends (λ o. Shrunk s o.1 × (o.0 ≡ ok tt → NoMembers id (d ∷ cs) o.1))
        (λ _. remove_members env id cs) (remove_member env id d s)
        (λ u e. (
          Shrunk-trans s s1 (remove_members env id cs s1).1 first rest,
          λ done c m ours. elim (head_or_tail m) [
            | inl same ↦ rw same (
                Shrunk-absent s1 (remove_members env id cs s1).1 d.metadata.id rest
                  (gone e (ap (λ x. x.metadata.sandbox_id) (sym same) ∙ ours)))
            | inr later ↦ others done c later ours
          ],
        ))
        (λ x e. (first, λ done. cc)) (λ e. (first, λ done. cc))

  pub check_stopped-Outside :
      (s0 : State World) (id : String) → Keeps (Outside s0) (check_stopped env id)
  unfolding check_stopped
  check_stopped-Outside s0 id = search outside_rules depth 14

  pub resources-Outside :
      (s0 : State World) (id : String) → Keeps (Outside s0) (remove_sandbox_resources env id)
  unfolding remove_sandbox_resources
  resources-Outside s0 id = search outside_rules depth 14

  Outside-Shrunk : (s t : State World) → Outside s t → Shrunk s t
  Outside-Shrunk s t h = record {
    same_sandboxes = ground (arith, h);
    same_sandbox_names = ground (arith, h);
    same_images = ground (arith, h);
    only_old = λ j c e. ground (arith, h, e);
  }

  -- What a removal of the sandbox leaves of the state `s0`, by how it ends. On success the sandbox and
  -- every container that it had are out of the stores, and no name is reserved for it. On an error
  -- no sandbox has gone. In any case no image changes, and no container is added or replaced.
  abbrev pub SandboxRemoved : State World → Sandbox → Result (Unit {0}) × State World → Type 0
  SandboxRemoved s0 sb (ok _, s) =
      (Sandbox.get sb.id s.sandboxes ≡ err not_exist)
      × (lookup sb.id s.sandbox_names.key_to_name ≡ none)
      × NoMembers sb.id (Container.list s0.containers) s
      × (s.images ≡ s0.images)
      × ((j : String) (c : Container)
          → lookup j s.containers ≡ some c
          → lookup j s0.containers ≡ some c)
  SandboxRemoved s0 sb (err _, s) = Shrunk s0 s
  SandboxRemoved s0 sb (panic, s) = Shrunk s0 s

  forget_sandbox-SandboxRemoved :
      (sb : Sandbox) (s0 s : State World)
      → Shrunk s0 s
      → NoMembers sb.id (Container.list s0.containers) s
      → SandboxRemoved s0 sb (forget_sandbox sb.id s)
  unfolding forget_sandbox Sandbox.get Sandbox.delete
  forget_sandbox-SandboxRemoved sb s0 s h gone = (
    ground (arith, lookup-erase sb.id sb.id s.sandboxes, eq_refl sb.id),
    release_by_key_frees sb.id s.sandbox_names,
    gone,
    h.same_images,
    h.only_old,
  )

  remove_found-SandboxRemoved :
      (sb : Sandbox) (s : State World)
      → IsStored s
      → SandboxRemoved s sb (remove_found_sandbox env sb s)
  unfolding remove_found_sandbox
  remove_found-SandboxRemoved sb s h =
      let s1 : State World = (check_stopped env sb.id s).1 in
      let k : Outside s s1 = (check_stopped-Outside s sb.id).at s refl in
      let cs : List Container = Container.list s1.containers in
      let same : cs ≡ Container.list s.containers = ap (λ t. Container.list t.containers) k in
      let s2 : State World = (remove_members env sb.id cs s1).1 in
      let (rest, gone) =
        remove_members-Gone sb.id cs s1 (Shrunk-IsStored s s1 (Outside-Shrunk s s1 k) h) in
      let upto2 : Shrunk s s2 = Shrunk-trans s s1 s2 (Outside-Shrunk s s1 k) rest in
      let s3 : State World = (remove_sandbox_resources env sb.id s2).1 in
      let k3 : Outside s2 s3 = (resources-Outside s2 sb.id).at s2 refl in
      let upto3 : Shrunk s s3 = Shrunk-trans s s2 s3 upto2 (Outside-Shrunk s2 s3 k3) in
      bind_ends (SandboxRemoved s sb)
        (λ _ t.
          (remove_members env sb.id (Container.list t.containers)
              >> (remove_sandbox_resources env sb.id >> forget_sandbox sb.id))
            t)
        (check_stopped env sb.id s)
        (λ _ e1.
          bind_ends (SandboxRemoved s sb)
            (λ _. remove_sandbox_resources env sb.id >> forget_sandbox sb.id)
            (remove_members env sb.id cs s1)
            (λ u e2.
              bind_ends (SandboxRemoved s sb) (λ _. forget_sandbox sb.id)
                (remove_sandbox_resources env sb.id s2)
                (λ _ e3. forget_sandbox-SandboxRemoved sb s s3 upto3 (λ c m ours.
                  Shrunk-absent s2 s3 c.metadata.id (Outside-Shrunk s2 s3 k3)
                    (gone e2 c (rw same m) ours)))
                (λ x e3. upto3) (λ e3. upto3))
            (λ x e2. upto2) (λ e2. upto2))
        (λ x e1. Outside-Shrunk s s1 k) (λ e1. Outside-Shrunk s s1 k)

  -- `RemovePodSandbox` of a sandbox in the store, whichever call fails. If it succeeds, the sandbox and
  -- every container that it had are out of the stores, and no name is reserved for it. If it fails, no
  -- sandbox is removed and all sandbox names stay. No image changes, and no container is added or
  -- replaced.
  pub remove_pod_sandbox_outcome :
      (id : String) (sb : Sandbox) (s : State World)
      → IsStored s
      → Sandbox.get id s.sandboxes ≡ ok sb
      → SandboxRemoved s sb (remove_pod_sandbox env id s)
  unfolding remove_pod_sandbox
  remove_pod_sandbox_outcome id sb s h found =
      rw (found, remove_pod_sandbox) (remove_found-SandboxRemoved sb s h)

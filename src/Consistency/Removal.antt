-- ===== src/Consistency/Removal.antt =====
-- `RemoveContainer` and `RemovePodSandbox` against the invariant of the service.
use cri_containerd.Base.{
  ℕ, String, refl, ok, err, panic, Result, List, [], ◌∷◌, arith, inl, inr, Option-cases, string_eq,
}
use text.Mathlib.TextPositions.{eq_refl}
use cri_containerd.Map.{Map, lookup, lookup-erase, erase}
use cri_containerd.Registrar.{Registrar, release_by_key}
use cri_containerd.Store.Container
use cri_containerd.Store.Container.{Container}
use cri_containerd.Store.Sandbox
use cri_containerd.Store.Sandbox.{Sandbox}
use cri_containerd.Exec.Keeps.{Keeps, keeps_rules, Keeps-bind, Keeps-pure, Keeps-then}
use cri_containerd.Exec.{◌>>◌}
use cri_containerd.Service.{State, Env}
use cri_containerd.Service.Frame.{Outside-WorldFree}
use cri_containerd.Containers.Remove.{remove_container}
use cri_containerd.Containers.Remove.Outcome.{Removed, remove_container_outcome}
use cri_containerd.Containers.Common.{list_containers_in_store}
use cri_containerd.Sandboxes.Remove.{
  remove_member, remove_members, check_stopped, remove_sandbox_resources, forget_sandbox,
  remove_found_sandbox, remove_pod_sandbox,
}
use cri_containerd.Sandboxes.Remove.Outcome.{check_stopped-Outside, resources-Outside}
use cri_containerd.Consistency.Registered.{Registered, Registered-erase, Registered-release}
use cri_containerd.Consistency.Storages.{Storages-erase}
use cri_containerd.Consistency.Invariant.{
  IsConsistent, IsConsistent-same, IsConsistent-WorldFree, Registered-same, Storages-same,
  id_of_container, name_of_container, id_of_sandbox, name_of_sandbox,
}

-- an entry and its name go
forgotten-Registered :
    {V : Type 0} (id name : V → String) (m : Map V) (r : Registrar) (k : String)
    → Registered id name m r
    → Registered id name (erase k m) (release_by_key k r)
forgotten-Registered id name m r k h =
    Registered-release id name (erase k m) r (Registered-erase id name m r h k) k
      (ground (arith, lookup-erase k k m, eq_refl k))

module _ {W : Type 0} where
  Removed-IsConsistent :
      (c : Container) (a : ℕ) (s0 : State W) (o : Result (Unit {0}) × State W)
      → Removed c a s0 o
      → IsConsistent s0
      → IsConsistent o.1
  unfolding Container.delete
  Removed-IsConsistent c a s0 (ok r, s) e h =
      let (gone, names, sandboxes, sandbox_names, images, next, mark) = e in
      record {
        containers =
            Registered-same id_of_container name_of_container
              (Container.delete c.metadata.id s0.containers) _
              (release_by_key c.metadata.id s0.container_names) _ gone names
              (forgotten-Registered id_of_container name_of_container s0.containers
                s0.container_names c.metadata.id h.containers);
        sandboxes =
            Registered-same id_of_sandbox name_of_sandbox s0.sandboxes _ s0.sandbox_names _
              sandboxes sandbox_names h.sandboxes;
        storages =
            Storages-same (Container.delete c.metadata.id s0.containers) _ s0.heap.next _ gone
              (omega (arith, next))
              (Storages-erase s0.containers s0.heap.next h.storages c.metadata.id);
      }
  Removed-IsConsistent c a s0 (err x, s) e h =
      let (containers, names, sandboxes, sandbox_names, images, next, mark) = e in
      IsConsistent-same s0 s containers names sandboxes sandbox_names (omega (arith, next)) h
  Removed-IsConsistent c a s0 (panic, s) e h = absurd e

module _ (env : Env) where
  open env use {World}

  pub remove_container-IsConsistent :
      (id : String) → Keeps {S = State World} IsConsistent (remove_container env id)
  unfolding remove_container Container.get
  remove_container-IsConsistent id = record {
    at = λ s h. elim (Option-cases (lookup id s.containers)) [
      | inl missing ↦ rw (missing, remove_container) h
      | inr (c, found) ↦
          let (a, stored, lt) = h.storages.backed id c found in
          Removed-IsConsistent c a s (remove_container env id s)
            (remove_container_outcome env id c a s (rw (found, Container.get) refl) stored) h
    ];
  }

  remove_member-IsConsistent :
      (id : String) (c : Container) → Keeps {S = State World} IsConsistent (remove_member env id c)
  unfolding remove_member
  remove_member-IsConsistent id c = search (keeps_rules, remove_container-IsConsistent) depth 8

  remove_members-IsConsistent :
      (id : String) (cs : List Container)
      → Keeps {S = State World} IsConsistent (remove_members env id cs)
  unfolding remove_members
  remove_members-IsConsistent id [] = Keeps-pure tt
  remove_members-IsConsistent id (c ∷ cs) =
      Keeps-then (remove_member env id c) (remove_members env id cs)
        (remove_member-IsConsistent id c) (remove_members-IsConsistent id cs)

  forget_sandbox-IsConsistent :
      (id : String) → Keeps {S = State World} IsConsistent (forget_sandbox id)
  unfolding forget_sandbox Sandbox.delete
  forget_sandbox-IsConsistent id = record {
    at = λ s h. record {
      containers = h.containers;
      sandboxes =
          forgotten-Registered id_of_sandbox name_of_sandbox s.sandboxes s.sandbox_names id
            h.sandboxes;
      storages = h.storages;
    };
  }

  remove_found-IsConsistent :
      (sb : Sandbox) → Keeps {S = State World} IsConsistent (remove_found_sandbox env sb)
  unfolding remove_found_sandbox
  remove_found-IsConsistent sb =
      let stopped : Keeps IsConsistent (check_stopped env sb.id) =
        Outside-WorldFree _ (λ s. check_stopped-Outside env s sb.id) IsConsistent-WorldFree in
      let emptied : Keeps IsConsistent (remove_sandbox_resources env sb.id) =
        Outside-WorldFree _ (λ s. resources-Outside env s sb.id) IsConsistent-WorldFree in
      let rest : (cs : List Container)
          → Keeps {S = State World} IsConsistent (
              remove_members env sb.id cs
              >> (remove_sandbox_resources env sb.id >> forget_sandbox sb.id)) =
        λ cs. Keeps-then (remove_members env sb.id cs) _ (remove_members-IsConsistent sb.id cs) (
          Keeps-then (remove_sandbox_resources env sb.id) (forget_sandbox sb.id) emptied
            (forget_sandbox-IsConsistent sb.id)) in
      Keeps-then (check_stopped env sb.id) _ stopped
        (Keeps-bind list_containers_in_store _ (record { at = λ s h. h }) rest)

  pub remove_pod_sandbox-IsConsistent :
      (id : String) → Keeps {S = State World} IsConsistent (remove_pod_sandbox env id)
  unfolding remove_pod_sandbox Sandbox.get
  remove_pod_sandbox-IsConsistent id = record {
    at = λ s h. elim (Option-cases (lookup id s.sandboxes)) [
      | inl missing ↦ rw (missing, remove_pod_sandbox) h
      | inr (sb, found) ↦ rw (found, remove_pod_sandbox) ((remove_found-IsConsistent sb).at s h)
    ];
  }

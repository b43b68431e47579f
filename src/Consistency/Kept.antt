-- ===== src/Consistency/Kept.antt =====
-- The handlers that neither add nor remove a container or a sandbox, against the invariant of the
-- service.
use cri_containerd.Base.{ℕ, ◌≤◌, String, refl, true, Option, arith, inl, inr, Option-cases}
use cri_containerd.Base.Int.{ℤ}
use cri_containerd.Map.{lookup}
use cri_containerd.Store.Heap
use cri_containerd.Store.Heap.{Heap, UpdateFunc}
use cri_containerd.Store.Container
use cri_containerd.Store.Container.{Container}
use cri_containerd.Exec.Keeps.{Keeps, keeps_rules, Keeps-unless}
use cri_containerd.Service.{State, Env, TaskExit, AuthConfig}
use cri_containerd.Service.Frame.{call-WorldFree}
use cri_containerd.Containers.Common.{get_status, update_status}
use cri_containerd.Containers.Start.{start_container}
use cri_containerd.Containers.Start.Outcome.{OnlyStatus, start_container_effect}
use cri_containerd.Containers.Stop.{stop_container}
use cri_containerd.Containers.Stop.Undisturbed.{Undisturbed, run_stop-Keeps}
use cri_containerd.Containers.Events.{
  Event, task_exit, task_oom, other, undecodable, handle_task_exit, handle_event, container_or_zero,
  set_oom_killed,
}
use cri_containerd.Sandboxes.Stop.{stop_pod_sandbox}
use cri_containerd.Sandboxes.Stop.Undisturbed.{stop_pod_sandbox-Keeps}
use cri_containerd.Images.Pull.{pull_image}
use cri_containerd.Images.Pull.Outcome.{pull_image-ImagesOnly}
use cri_containerd.Images.Manage.{remove_image}
use cri_containerd.Images.Manage.Outcome.{remove_image-ImagesOnly}
use cri_containerd.Consistency.Invariant.{
  IsConsistent, IsConsistent-same, IsConsistent-WorldFree, ImagesOnly-IsConsistent,
}

updated_next : (a : ℕ) (u : UpdateFunc) (h : Heap) → h.next ≤ (Heap.update a u h).1.next
unfolding Heap.update Heap.write
updated_next a u h = ground arith

OnlyStatus-IsConsistent :
    {W : Type 0} (a : ℕ) (s t : State W) → OnlyStatus a s t → IsConsistent s → IsConsistent t
OnlyStatus-IsConsistent a s t o =
    IsConsistent-same s t o.same_containers o.same_names o.same_sandboxes o.same_sandbox_names
      (omega (arith, o.same_next))

module _ {W : Type 0} where
  -- an update of a status changes neither a store nor how many storages there are
  update_status-IsConsistent :
      (c : Container) (u : UpdateFunc) → Keeps {S = State W} IsConsistent (update_status c u)
  unfolding Heap.update Heap.write
  update_status-IsConsistent c u = elim (Option-cases c.status) [
    | inl bare ↦ rw bare (search keeps_rules)
    | inr (a, stored) ↦ rw stored (record {
      at = λ s h. IsConsistent-same s _ refl refl refl refl (updated_next a u s.heap) h;
    })
  ]

  get_status-IsConsistent : (c : Container) → Keeps {S = State W} IsConsistent (get_status c)
  get_status-IsConsistent c = elim (Option-cases c.status) [
    | inl bare ↦ rw bare (search keeps_rules)
    | inr (a, stored) ↦ rw stored (record { at = λ s h. h })
  ]

module _ (env : Env) where
  open env use {World}

  pub start_container-IsConsistent :
      (id : String) → Keeps {S = State World} IsConsistent (start_container env id)
  unfolding start_container Container.get
  start_container-IsConsistent id = record {
    at = λ s h. elim (Option-cases (lookup id s.containers)) [
      | inl missing ↦ ground (arith, missing, h)
      | inr (c, found) ↦
          let (a, stored, lt) = h.storages.backed id c found in
          let (result, cell, only) =
            start_container_effect env id c a s (rw (found, Container.get) refl) stored in
          OnlyStatus-IsConsistent a s (start_container env id s).1 only h
    ];
  }

  task_exit-IsConsistent :
      (e : TaskExit) (c : Container)
      → Keeps {S = State World} IsConsistent (handle_task_exit env e c)
  unfolding handle_task_exit
  task_exit-IsConsistent e c =
      search
        (
          keeps_rules, call-WorldFree, IsConsistent-WorldFree, get_status-IsConsistent,
          update_status-IsConsistent,
        )
        depth 10

  pub handle_event-IsConsistent :
      (e : Event) → Keeps {S = State World} IsConsistent (handle_event env e)
  unfolding handle_event
  handle_event-IsConsistent (task_exit e) = record {
    at = λ s h. elim (Container.get-cases e.container_id s.containers) [
      | inl (c, found) ↦ rw (found, handle_event) ((task_exit-IsConsistent e c).at s h)
      | inr missing ↦ rw (missing, handle_event) h
    ];
  }
  handle_event-IsConsistent (task_oom id) = record {
    at = λ s h.
        let c : Container = container_or_zero (Container.get id s.containers) in
        (Keeps-unless (λ _. true) (update_status c set_oom_killed)
            (update_status-IsConsistent c set_oom_killed)).at
          s h;
  }
  handle_event-IsConsistent other = record { at = λ s h. h }
  handle_event-IsConsistent (undecodable e) = record { at = λ s h. h }

  pub pull_image-IsConsistent :
      (ref : String) (auth : Option AuthConfig)
      → Keeps {S = State World} IsConsistent (pull_image env ref auth)
  pull_image-IsConsistent ref auth = record {
    at = λ s.
        ImagesOnly-IsConsistent s (pull_image env ref auth s).1
          ((pull_image-ImagesOnly env s ref auth).at s refl);
  }

  pub remove_image-IsConsistent :
      (ref : String) → Keeps {S = State World} IsConsistent (remove_image env ref)
  remove_image-IsConsistent ref = record {
    at = λ s.
        ImagesOnly-IsConsistent s (remove_image env ref s).1
          ((remove_image-ImagesOnly env s ref).at s refl);
  }

module _ (env : Env) (u : Undisturbed env IsConsistent) where
  open env use {World}

  pub stop_container-IsConsistent :
      (id : String) (timeout : ℤ)
      → Keeps {S = State World} IsConsistent (stop_container env id timeout)
  unfolding stop_container
  stop_container-IsConsistent id timeout =
      search (keeps_rules, run_stop-Keeps env IsConsistent u) depth 10

  pub stop_pod_sandbox-IsConsistent :
      (id : String) → Keeps {S = State World} IsConsistent (stop_pod_sandbox env id)
  stop_pod_sandbox-IsConsistent = stop_pod_sandbox-Keeps env IsConsistent u

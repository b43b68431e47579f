-- ===== src/Containers/Events/Outcome.antt =====
-- What an event of containerd does to the statuses.
use cri_containerd.Base.{
  ℕ, String, ◌≡◌, ◌≢◌, ◌↔◌, inl, inr, false, none, ok, err, panic, arith, Error, nat_eq, not_exist,
}
use cri_containerd.Base.Int.{int_eq}
use cri_containerd.Store.Status.{Status}
use cri_containerd.Store.Heap
use cri_containerd.Store.Heap.{Heap}
use cri_containerd.Store.Container
use cri_containerd.Store.Container.{Container}
use cri_containerd.Service.{State, Env, failure}
use cri_containerd.Containers.Common.{is_containerd_grpc_not_found_error}
use cri_containerd.Containers.Events.{task_oom, handle_event, set_oom_killed}

-- Only the storage at `a` may differ.
abbrev pub OnlyAt : ℕ → Heap → Heap → Type 0
OnlyAt a h h' = (b : ℕ) → b ≢ a → h'.cell b ≡ h.cell b

module _ (env : Env) where
  open env use {World, task_delete}

  -- containerd refused to delete the task, for another reason than that it is gone
  abbrev pub DeleteFails : String → World → Type 0
  DeleteFails id w =
      (e : Error) × ((task_delete id w).0 ≡ failure e)
      × (is_containerd_grpc_not_found_error env e ≡ false)

  -- The event of an out-of-memory kill crashes the daemon exactly when its container is not in the
  -- store, as a sandbox's container never is.
  pub task_oom_panics :
      (id : String) (s : State World)
      → ((c : Container) → Container.get id s.containers ≡ ok c → c.status ≢ none)
      → ((handle_event env (task_oom id) s).0 ≡ panic)
        ↔ (Container.get id s.containers ≡ err not_exist)
  unfolding handle_event Heap.update set_oom_killed
  task_oom_panics id s backed = elim (Container.get-cases id s.containers) [
    | inl (c, found) ↦ ground (arith, found, backed c found)
    | inr missing ↦ ground (arith, missing)
  ]

-- ===== src/Consistency/Reach.antt =====
-- The states of the service that its handlers, one after another, lead to. Each handler of
-- pkg/server that changes more than the world outside is a constructor; a handler that only reads or
-- calls outside is `outside`. While a stop waits, other handlers run between two polls.
use mathlib.Core.List.{Memᴰ}
use cri_containerd.Base.{String, ◌≡◌, ◌≢◌, Option, none, panic}
use cri_containerd.Base.Int.{ℤ}
use cri_containerd.Cri.{ContainerConfig, PodSandboxConfig}
use cri_containerd.Map.{lookup}
use cri_containerd.Registrar.Bijection.{new_registrar-IsBijection}
use cri_containerd.Service.{State, Env, AuthConfig}
use cri_containerd.Containers.Create.{create_container}
use cri_containerd.Containers.Start.{start_container}
use cri_containerd.Containers.Stop.{stop_container}
use cri_containerd.Containers.Stop.Undisturbed.{Undisturbed}
use cri_containerd.Containers.Remove.{remove_container}
use cri_containerd.Containers.Events.{Event, handle_event}
use cri_containerd.Sandboxes.Run.{run_pod_sandbox}
use cri_containerd.Sandboxes.Stop.{stop_pod_sandbox}
use cri_containerd.Sandboxes.Remove.{remove_pod_sandbox}
use cri_containerd.Images.Pull.{pull_image}
use cri_containerd.Images.Manage.{remove_image}
use cri_containerd.Daemon.Init.{new_state}
use cri_containerd.Consistency.Invariant.{IsConsistent, IsConsistent-WorldFree}
use cri_containerd.Consistency.Creation.{
  create_container-IsConsistent, run_pod_sandbox-IsConsistent,
}
use cri_containerd.Consistency.Removal.{
  remove_container-IsConsistent, remove_pod_sandbox-IsConsistent,
}
use cri_containerd.Consistency.Kept.{
  start_container-IsConsistent, handle_event-IsConsistent, pull_image-IsConsistent,
  remove_image-IsConsistent, stop_container-IsConsistent, stop_pod_sandbox-IsConsistent,
}

module _ (env : Env) where
  open env use {World, generate_id, waits}

  -- From the first state the handlers lead to the second. An id that is generated is not in use, and
  -- the creations do not panic, for a panic would end the service. What a stop finds changed after
  -- each pause is the work of other handlers.
  pub data Reach : State World → State World → Type 0 where
    stay : {s : State World} → Reach s s
    outside : {s t : State World} (w : World) → Reach s t → Reach s (record t { world = w })
    run :
        {s t : State World} (config : PodSandboxConfig)
        → lookup (generate_id t.world).0 t.sandbox_names.key_to_name ≡ none
        → (run_pod_sandbox env config t).0 ≢ panic
        → Reach s t
        → Reach s (run_pod_sandbox env config t).1
    create :
        {s t : State World} (sandbox : String) (config : ContainerConfig)
        (sandbox_config : PodSandboxConfig)
        → lookup (generate_id t.world).0 t.container_names.key_to_name ≡ none
        → (create_container env sandbox config sandbox_config t).0 ≢ panic
        → Reach s t
        → Reach s (create_container env sandbox config sandbox_config t).1
    start : {s t : State World} (id : String) → Reach s t → Reach s (start_container env id t).1
    stop :
        {s t : State World} (id : String) (timeout : ℤ)
        → ((i : String) (n : ℤ) (w : World) (tick : State World → State World)
            → Memᴰ tick (waits i n w).0.ticks
            → (u : State World) → Reach u (tick u))
        → Reach s t
        → Reach s (stop_container env id timeout t).1
    stop_sandbox :
        {s t : State World} (id : String)
        → ((i : String) (n : ℤ) (w : World) (tick : State World → State World)
            → Memᴰ tick (waits i n w).0.ticks
            → (u : State World) → Reach u (tick u))
        → Reach s t
        → Reach s (stop_pod_sandbox env id t).1
    remove : {s t : State World} (id : String) → Reach s t → Reach s (remove_container env id t).1
    remove_sandbox :
        {s t : State World} (id : String) → Reach s t → Reach s (remove_pod_sandbox env id t).1
    event : {s t : State World} (e : Event) → Reach s t → Reach s (handle_event env e t).1
    pull :
        {s t : State World} (ref : String) (auth : Option AuthConfig)
        → Reach s t
        → Reach s (pull_image env ref auth t).1
    forget_image :
        {s t : State World} (ref : String) → Reach s t → Reach s (remove_image env ref t).1

  -- every handler keeps the service consistent
  kept-IsConsistent : (s t : State World) → Reach s t → IsConsistent s → IsConsistent t
  kept-IsConsistent s t stay h = h
  kept-IsConsistent s t (outside {t = u} w r) h =
      IsConsistent-WorldFree.at u w (kept-IsConsistent s u r h)
  kept-IsConsistent s t (run {t = u} config fresh alive r) h =
      run_pod_sandbox-IsConsistent env config u (kept-IsConsistent s u r h) fresh alive
  kept-IsConsistent s t (create {t = u} sandbox config sandbox_config fresh alive r) h =
      create_container-IsConsistent env sandbox config sandbox_config u (kept-IsConsistent s u r h)
        fresh alive
  kept-IsConsistent s t (start {t = u} id r) h =
      (start_container-IsConsistent env id).at u (kept-IsConsistent s u r h)
  kept-IsConsistent s t (stop {t = u} id timeout others r) h =
      let quiet : Undisturbed env IsConsistent = record {
        free = IsConsistent-WorldFree;
        ticks = λ i n w tick m v. kept-IsConsistent v (tick v) (others i n w tick m v);
      } in
      (stop_container-IsConsistent env quiet id timeout).at u (kept-IsConsistent s u r h)
  kept-IsConsistent s t (stop_sandbox {t = u} id others r) h =
      let quiet : Undisturbed env IsConsistent = record {
        free = IsConsistent-WorldFree;
        ticks = λ i n w tick m v. kept-IsConsistent v (tick v) (others i n w tick m v);
      } in
      (stop_pod_sandbox-IsConsistent env quiet id).at u (kept-IsConsistent s u r h)
  kept-IsConsistent s t (remove {t = u} id r) h =
      (remove_container-IsConsistent env id).at u (kept-IsConsistent s u r h)
  kept-IsConsistent s t (remove_sandbox {t = u} id r) h =
      (remove_pod_sandbox-IsConsistent env id).at u (kept-IsConsistent s u r h)
  kept-IsConsistent s t (event {t = u} e r) h =
      (handle_event-IsConsistent env e).at u (kept-IsConsistent s u r h)
  kept-IsConsistent s t (pull {t = u} ref auth r) h =
      (pull_image-IsConsistent env ref auth).at u (kept-IsConsistent s u r h)
  kept-IsConsistent s t (forget_image {t = u} ref r) h =
      (remove_image-IsConsistent env ref).at u (kept-IsConsistent s u r h)

  new_state-IsConsistent : (w : World) → IsConsistent (new_state w)
  unfolding lookup
  new_state-IsConsistent w = record {
    containers = record {
      keyed = λ j v. cc;
      named = λ j v. cc;
      inverse = new_registrar-IsBijection;
    };
    sandboxes = record {
      keyed = λ j v. cc;
      named = λ j v. cc;
      inverse = new_registrar-IsBijection;
    };
    storages = record { backed = λ j c. cc; unshared = λ j k c d a. cc };
  }

  -- From the state of a new service, the handlers in whatever order and with whatever outcome, also
  -- those that other goroutines run while a stop waits, lead to consistent states only: every
  -- container and every sandbox in the stores is there under its id, and its name is reserved for
  -- that id; the two indexes of each registrar are inverse to one another; every container has a
  -- status storage that was allocated and that no other container has. An id that is generated must
  -- not be in use, and the two creations must not panic.
  pub Reach-IsConsistent : (w : World) (s : State World) → Reach (new_state w) s → IsConsistent s
  Reach-IsConsistent w s r = kept-IsConsistent (new_state w) s r (new_state-IsConsistent w)

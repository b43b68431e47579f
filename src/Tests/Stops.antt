-- ===== src/Tests/Stops.antt =====
-- A stop of a sandbox whose container is running: the container exits between two polls.
use mathlib.Core.List.{Memᴰ}
use cri_containerd.Base.{ℕ, ◌+◌, refl, ◌≡◌, inl, inr, [], ◌∷◌, ok}
use cri_containerd.Base.Int.{pos}
use cri_containerd.Base.Keep.{head_or_tail}
use cri_containerd.Map.{lookup, values}
use cri_containerd.Store.Status.{Status, state}
use cri_containerd.Store.Container
use cri_containerd.Store.Sandbox
use cri_containerd.Service.{State, Env, timed_out}
use cri_containerd.Service.Stream.{wait_for}
use cri_containerd.Containers.Stop.{run_stop, kill_container, wait_container_stop, poll_loop, poll}
use cri_containerd.Containers.Stop.Undisturbed.{Undisturbed}
use cri_containerd.Sandboxes.Stop.{stop_pod_sandbox, stop_sandbox_container}
use cri_containerd.Sandboxes.Stop.Outcome.{Down, Down-WorldFree, stop_pod_sandbox-Down}
use cri_containerd.Tests.Toy.{toy, service, pod, web, running_status}

abbrev gone : Status
gone = record running_status { pid = 0; finished_at = pos 990; exit_code = pos 137 }

-- another goroutine handles the exit
abbrev exit_tick : State ℕ → State ℕ
exit_tick s = record s { heap = record { next = s.heap.next; cell = λ a. gone } }

abbrev exiting : Env
exiting = record toy {
  waits = λ id timeout n. (record { ticks = exit_tick ∷ []; last = timed_out }, n + 1);
}

undisturbed : Undisturbed exiting (Down web 0)
unfolding state
undisturbed = record {
  free = Down-WorldFree web 0;
  ticks = λ id timeout w tick m s h. elim (head_or_tail m) [
    | inl e ↦ rw e (inl (λ q. cc))
    | inr none_left ↦ elim none_left [ ]
  ];
}

stopped : (stop_pod_sandbox exiting "s1" (service running_status)).0 ≡ ok tt
unfolding wait_for stop_pod_sandbox Sandbox.get lookup Container.list values run_stop state
    kill_container wait_container_stop poll_loop poll Container.get stop_sandbox_container
stopped = refl

pod_found : Sandbox.get "s1" (service running_status).sandboxes ≡ ok pod
unfolding Sandbox.get lookup
pod_found = refl

listed : Memᴰ web (Container.list (service running_status).containers)
unfolding Container.list values
listed = Memᴰ.head refl

stop_pod_sandbox-Down_example :
    Down web 0 (stop_pod_sandbox exiting "s1" (service running_status)).1
stop_pod_sandbox-Down_example =
    stop_pod_sandbox-Down exiting web 0 undisturbed "s1" pod (service running_status) pod_found refl
      refl listed stopped

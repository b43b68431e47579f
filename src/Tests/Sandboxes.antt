-- ===== src/Tests/Sandboxes.antt =====
-- The theorems on whole handlers of sandboxes and containers at concrete inputs.
use mathlib.Core.List.{Memᴰ}
use text.Mathlib.TextEquality.{eq_iff}
use cri_containerd.Base.{List, errorf, ◌↔◌, String, ◌≡◌, refl, [], ◌∷◌, ok, arith, string_eq, some}
use cri_containerd.Cri.{ready, zero_sandbox_config, zero_config}
use cri_containerd.Map.{lookup}
use cri_containerd.Registrar.Bijection.{IsBijection}
use cri_containerd.Store.Sandbox
use cri_containerd.Containers.Create.{create_named}
use cri_containerd.Containers.Create.Outcome.{ContainerMade, create_named-ContainerMade}
use cri_containerd.Sandboxes.Query.{CriSandbox, SandboxFilter, to_cri_sandbox, filter_cri_sandboxes}
use cri_containerd.Sandboxes.Query.Filter.{Matches, filter_cri_sandboxes_exact}
use cri_containerd.Sandboxes.Run.{run_named}
use cri_containerd.Sandboxes.Run.Outcome.{SandboxRun, run_named-SandboxRun}
use cri_containerd.Sandboxes.Stop.{wait_exit}
use cri_containerd.Sandboxes.Stop.Wait.{is_exit_of, wait_exit_lem}
use cri_containerd.Service.{StreamEvent, TaskExit, exited, other}
use cri_containerd.Service.Stream.{wait_for}
use cri_containerd.Service.Stream.Delivered.{Delivered}
use cri_containerd.Sandboxes.Remove.{remove_pod_sandbox}
use cri_containerd.Sandboxes.Remove.Shrunk.{IsStored}
use cri_containerd.Sandboxes.Remove.Outcome.{SandboxRemoved, remove_pod_sandbox_outcome}
use cri_containerd.Tests.Toy.{exit_of, toy, service, pod, created_status}

-- the two indexes of one pair
one_pair-IsBijection :
    (name key : String)
    → IsBijection (record { name_to_key = (name, key) ∷ []; key_to_name = (key, name) ∷ [] })
unfolding lookup
one_pair-IsBijection name key = record {
  forward = λ n k h. ground (arith, h, eq_iff name n, eq_iff key k);
  backward = λ n k h. ground (arith, h, eq_iff name n, eq_iff key k);
}

run_named-SandboxRun_example :
    SandboxRun
      (service created_status)
      "s2"
      "pod_b"
      zero_sandbox_config
      (run_named toy zero_sandbox_config "s2" "pod_b" (service created_status))
run_named-SandboxRun_example =
    run_named-SandboxRun toy "s2" "pod_b" zero_sandbox_config (service created_status)
      (one_pair-IsBijection "pod_space_uid_0" "s1")

create_named-ContainerMade_example :
    ContainerMade
      (service created_status)
      pod
      zero_config
      "c2"
      "db"
      (create_named toy pod zero_config zero_sandbox_config "c2" "db" (service created_status))
create_named-ContainerMade_example =
    create_named-ContainerMade toy pod zero_config "c2" "db" (service created_status)
      zero_sandbox_config (one_pair-IsBijection "web_pod_space_uid_0" "c1")

service-IsStored : IsStored (service created_status)
unfolding lookup
service-IsStored = record {
  keyed = λ j c h. ground (arith, h, eq_iff "c1" j);
  backed = λ j c h. ground (arith, h, eq_iff "c1" j);
}

pod_found : Sandbox.get "s1" (service created_status).sandboxes ≡ ok pod
unfolding Sandbox.get lookup
pod_found = refl

remove_pod_sandbox_outcome_example :
    SandboxRemoved toy
      (service created_status)
      pod
      (remove_pod_sandbox toy "s1" (service created_status))
remove_pod_sandbox_outcome_example =
    remove_pod_sandbox_outcome toy "s1" pod (service created_status) service-IsStored pod_found

abbrev ready_pod : CriSandbox
ready_pod = to_cri_sandbox pod ready

abbrev only_ready : SandboxFilter
only_ready = record { id = "s1"; state = some ready; label_selector = [] }

filter_cri_sandboxes_exact_example :
    Memᴰ ready_pod (filter_cri_sandboxes (some only_ready) (ready_pod ∷ [])) ↔ (
      Memᴰ ready_pod (ready_pod ∷ [])
      × ((f : SandboxFilter) → some only_ready ≡ some f → Matches f ready_pod))
filter_cri_sandboxes_exact_example =
    filter_cri_sandboxes_exact (some only_ready) ready_pod (ready_pod ∷ [])

-- the exit of another container, something else, and the exit that is waited for
abbrev stream : List StreamEvent
stream = exited (exit_of "c1" "c1" 7) ∷ other ∷ exited (exit_of "s1" "s1" 42) ∷ []

stream_delivers : (wait_exit "s1" 42 stream (errorf "closed" []) ≡ ok tt) ↔ (
    (e : TaskExit) × (e.container_id ≡ "s1")
    × (e.pid ≡ 42)
    × Delivered (is_exit_of "s1" 42) stream e)
stream_delivers = wait_exit_lem "s1" 42 stream (errorf "closed" [])

stream_reaches_exit : wait_exit "s1" 42 stream (errorf "closed" []) ≡ ok tt
unfolding wait_exit wait_for
stream_reaches_exit = refl

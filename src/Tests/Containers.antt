-- ===== src/Tests/Containers.antt =====
-- The theorems on containers at concrete inputs.
use mathlib.Core.List.{Memᴰ}
use cri_containerd.Base.{
  ◌≡◌, ◌≢◌, ◌⊎◌, ◌↔◌, refl, true, some, [], ◌∷◌, ok, err, panic, Error, not_exist, arith,
}
use cri_containerd.Base.Int.{pos}
use cri_containerd.Cri.{created, running}
use cri_containerd.Map.{lookup}
use cri_containerd.Store.Status.{Status, state}
use cri_containerd.Store.Container
use cri_containerd.Containers.Remove.{remove_container}
use cri_containerd.Containers.Remove.Outcome.{Removed, remove_container_outcome}
use cri_containerd.Containers.Start.{run_start, start_container}
use cri_containerd.Containers.Start.Outcome.{StartedAs, start_container_effect}
use cri_containerd.Containers.Stop.{run_stop}
use cri_containerd.Containers.Stop.Outcome.{IsStopped, run_stop_stops}
use cri_containerd.Service.{TaskExit}
use cri_containerd.Containers.Events.{task_oom, handle_event}
use cri_containerd.Containers.Events.Outcome.{task_oom_panics}
use cri_containerd.Containers.Query.{
  CriContainer, ContainerFilter, to_cri_container, filter_cri_containers, CriStatus,
  container_status,
}
use cri_containerd.Containers.Query.Filter.{Matches, filter_cri_containers_exact}
use cri_containerd.Containers.Query.Reason.{Reports, container_status_lem}
use cri_containerd.Lifecycle.{Reach, next, here, start, initial, started}
use cri_containerd.Lifecycle.Invariant.{IsSound, Follows, Reach-initial-IsSound, Reach-Follows}
use cri_containerd.Lifecycle.Refinement.{
  ClockRuns, Started, MayStart, run_start-Started, run_start_refused,
}
use cri_containerd.Tests.Toy.{toy, service, web, created_status, running_status}

web_found : (s : Status) → Container.get "c1" (service s).containers ≡ ok web
unfolding Container.get lookup
web_found s = refl

remove_container_outcome_example :
    Removed web 0 (service created_status) (remove_container toy "c1" (service created_status))
remove_container_outcome_example =
    remove_container_outcome toy "c1" web 0 (service created_status) (web_found created_status) refl

start_container_effect_example :
    StartedAs toy 0
      (service created_status)
      (run_start toy "c1" web.metadata created_status (service created_status)).0
      (start_container toy "c1" (service created_status))
start_container_effect_example =
    start_container_effect toy "c1" web 0 (service created_status) (web_found created_status) refl

clock : ClockRuns toy
clock w = ground arith

created_status_created : state created_status ≡ created
unfolding state
created_status_created = refl

run_start-Started_example :
    Started toy created_status
      (run_start toy "c1" web.metadata created_status (service created_status)).0
run_start-Started_example =
    run_start-Started toy "c1" web.metadata created_status (service created_status) clock
      (created_status_created, refl)

running_not_startable : ¬ MayStart toy running_status
unfolding state
running_not_startable m = ground (arith, m)

run_start_refused_example :
    (e : Error) × (run_start toy "c1" web.metadata running_status (service running_status)
      ≡ ((err e, running_status), service running_status))
run_start_refused_example =
    run_start_refused toy "c1" web.metadata running_status (service running_status)
      running_not_startable

abbrev removing_status : Status
removing_status = record created_status { removing = true }

abbrev web_exit : TaskExit
web_exit = record {
  container_id = "c1";
  id = "c1";
  pid = 42;
  exit_status = 137;
  exited_at = pos 2000;
}

nothing_found : (s : Status) → Container.get "s1" (service s).containers ≡ err not_exist
unfolding Container.get lookup
nothing_found s = refl

task_oom_panics_example :
    ((handle_event toy (task_oom "s1") (service running_status)).0 ≡ panic)
    ↔ (Container.get "s1" (service running_status).containers ≡ err not_exist)
task_oom_panics_example =
    task_oom_panics toy "s1" (service running_status)
      (λ c found. cc (found, nothing_found running_status))

abbrev later : Status
later = started 42 (pos 950) (initial (pos 900))

life : Reach (initial (pos 900)) later
unfolding state
life = next here (start 42 (pos 950) refl refl (ground arith) refl)

Reach-initial-IsSound_example : IsSound later
Reach-initial-IsSound_example = Reach-initial-IsSound (pos 900) later (ground arith) life

Reach-Follows_example : Follows (initial (pos 900)) later
Reach-Follows_example = Reach-Follows (initial (pos 900)) later life

created_stop : (run_stop toy web (pos 5) (service created_status)).0 ≡ ok tt
unfolding run_stop state
created_stop = refl

run_stop_stops_example :
    ((state created_status ≢ running)
      × ((run_stop toy web (pos 5) (service created_status)).1 ≡ service created_status))
    ⊎ IsStopped "c1" (run_stop toy web (pos 5) (service created_status)).1
run_stop_stops_example = run_stop_stops toy web 0 (pos 5) (service created_status) refl created_stop

abbrev listed : CriContainer
listed = to_cri_container web running_status

abbrev only_running : ContainerFilter
only_running = record { id = ""; state = some running; pod_sandbox_id = "s1"; label_selector = [] }

filter_cri_containers_exact_example :
    Memᴰ listed (filter_cri_containers (some only_running) (listed ∷ [])) ↔ (
      Memᴰ listed (listed ∷ [])
      × ((f : ContainerFilter) → some only_running ≡ some f → Matches f listed))
filter_cri_containers_exact_example =
    filter_cri_containers_exact (some only_running) listed (listed ∷ [])

-- the example container, killed with no reason given
abbrev killed_status : Status
killed_status = record running_status { pid = 0; finished_at = pos 990; exit_code = pos 137 }

container_status_lem_example :
    (r : CriStatus) × (container_status "c1" (service killed_status)
      ≡ (ok r, service killed_status))
    × (r.state ≡ state killed_status)
    × (r.exit_code ≡ pos 137)
    × Reports killed_status r.reason
container_status_lem_example =
    container_status_lem "c1" web 0 (service killed_status) (web_found killed_status) refl

-- ===== src/Tests/Execs.antt =====
-- Commands in a running container, and the conditions of the runtime, at concrete inputs.
use cri_containerd.Base.{
  ℕ, ◌+◌, true, false, ◌≡◌, ◌≢◌, ◌↔◌, refl, none, some, [], ◌∷◌, Error, ok, fault,
}
use cri_containerd.Base.Int.{pos, to_int32, mul_int64}
use cri_containerd.Store.Status.{state}
use cri_containerd.Store.Container
use cri_containerd.Map.{lookup}
use cri_containerd.Service.{Env, Reply, value, exited, other}
use cri_containerd.Service.Stream.{wait_for}
use cri_containerd.Containers.ExecSync.{
  ExecOptions, ExecSyncResponse, exec_in_container, exec_sync, wait_exec, wait_container_exec,
}
use cri_containerd.Containers.ExecSync.Outcome.{Executed, exec_in_container-Executed}
use cri_containerd.Streaming.{code_exit, stream_exec}
use cri_containerd.Streaming.ExitCode.{exit_code_lem}
use cri_containerd.Runtime.{RuntimeCondition, runtime_ready, network_ready, serving, status}
use cri_containerd.Runtime.Conditions.{Explains, status_lem}
use cri_containerd.Tests.Toy.{toy, exit_of, service, running_status}

-- the stream delivers the exit of another process and then that of the command, with code 3
abbrev answering : Env
answering = record toy {
  receive_all = λ stream n. (
    (exited (exit_of "c1" "c1" 42) ∷ other ∷ exited (exit_of "c1" "id" 50) ∷ [], fault "closed"),
    n + 1,
  );
}

abbrev options : ExecOptions
options = record {
  cmd = "ls" ∷ [];
  stdin = none;
  stdout = 30;
  stderr = 31;
  tty = false;
  timeout = pos 0;
}

-- the options of `ExecSync` for the first two buffers of the world
abbrev sync_options : ExecOptions
sync_options = record options { stdout = 0; stderr = 1 }

ran_sync :
    (exec_in_container answering "c1" sync_options
      (record (service running_status) { world = 2 })).0
    ≡ ok 3
unfolding exec_in_container Container.get lookup state wait_container_exec wait_exec wait_for
ran_sync = refl

ran_streamed : (exec_in_container answering "c1" options (service running_status)).0 ≡ ok 3
unfolding exec_in_container Container.get lookup state wait_container_exec wait_exec wait_for
ran_streamed = refl

exec_in_container-Executed_example :
    Executed answering "c1"
      (service running_status)
      (exec_in_container answering "c1" options (service running_status))
exec_in_container-Executed_example =
    exec_in_container-Executed answering "c1" options (service running_status)

exit_code_lem_example :
    ((r : ExecSyncResponse) × ((exec_sync answering "c1"
          ("ls" ∷ [])
          (pos 0)
          (service running_status)).0
        ≡ ok r)
      × (r.exit_code ≡ to_int32 3))
    × (((stream_exec answering "c1" ("ls" ∷ []) none 30 31 false (service running_status)).0
          ≡ ok none)
        ↔ (◌≡◌ {A = ℕ} 3 0))
    × (◌≢◌ {A = ℕ} 3 0
        → (e : Error) × ((stream_exec answering "c1"
              ("ls" ∷ [])
              none
              30
              31
              false
              (service running_status)).0
            ≡ ok (some (code_exit e 3))))
unfolding mul_int64
exit_code_lem_example =
    exit_code_lem answering "c1" ("ls" ∷ []) (pos 0) none 30 31 3 false (service running_status)
      (service running_status) ran_sync ran_streamed

status_lem_example :
    (c : RuntimeCondition) × (d : RuntimeCondition) × ((status toy (service running_status)).0
      ≡ ok (c ∷ d ∷ []))
    × (c.kind ≡ runtime_ready)
    × (d.kind ≡ network_ready)
    × Explains c
    × Explains d
    × (c.status ≡ true ↔ ◌≡◌ {A = Reply ℕ} (value 1) (value serving))
    × (d.status ≡ true ↔ ◌≡◌ {A = Reply (Unit {0})} (value tt) (value tt))
status_lem_example = status_lem toy (service running_status)

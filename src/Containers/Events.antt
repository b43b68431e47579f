-- ===== src/Containers/Events.antt =====
-- pkg/server/events.go: the events of containerd.
pub mod Outcome
use cri_containerd.Base.{
  ℕ, ◌==◌, not, nat_eq, String, Bool, none, List, [], ◌∷◌, if◌then◌else◌, Result, ok, err, panic,
  Error,
}
use cri_containerd.Base.Int.{ℤ, pos, int_eq, to_int32}
use cri_containerd.Cri.{zero_config}
use cri_containerd.Store.Status.{Status}
use cri_containerd.Store.Container
use cri_containerd.Store.Container.{Container}
use cri_containerd.Exec.{Exec, pure, unless, ◌>>=◌, ◌>>◌}
use cri_containerd.Service.{State, Env, TaskExit, call}
use cri_containerd.Containers.Common.{
  get_status, with_storage, update_status, ignore, is_containerd_grpc_not_found_error,
}

-- what `typeurl.UnmarshalAny` makes of an event
pub data Event : Type 0 where
  task_exit : TaskExit → Event
  task_oom : String → Event
  other : Event
  undecodable : Error → Event

-- the update function of a `TaskExit`
unfoldable pub set_exited : TaskExit → Status → Result Status
set_exited e status =
    if not (status.finished_at == pos 0)
    then ok status
    else ok
        (record status { pid = 0; finished_at = e.exited_at; exit_code = to_int32 e.exit_status })

-- the update function of a `TaskOOM`
unfoldable pub set_oom_killed : Status → Result Status
set_oom_killed status = ok (record status { reason = "OOMKilled" })

-- A container that is not found is the zero `Container{}`: the error of `Get` is only logged.
unfoldable pub container_or_zero : Result Container → Container
container_or_zero (ok c) = c
container_or_zero _ = record {
  metadata = record { id = ""; name = ""; sandbox_id = ""; config = zero_config; image_ref = "" };
  status = none;
}

module _ (env : Env) where
  open env use {World, task_delete}

  -- A `TaskExit` of a container in the store. Errors are logged, and end the handler.
  unfoldable pub handle_task_exit : TaskExit → Container → Exec (State World) (Unit {0})
  handle_task_exit e c = do
    status ← get_status c
    if not (e.pid == status.pid)
        then pure tt
        else ignore (
            unless (is_containerd_grpc_not_found_error env) (call (task_delete e.container_id))
            >> update_status c (set_exited e))

  unfoldable pub handle_event : Event → Exec (State World) (Unit {0})
  unfolding handle_task_exit container_or_zero
  handle_event (task_exit e) s = elim (Container.get e.container_id s.containers) [
    | ok c ↦ handle_task_exit e c s
    | err _ ↦ (ok tt, s)
    | panic ↦ (panic, s)
  ]
  handle_event (task_oom container_id) s =
      ignore
        (update_status (container_or_zero (Container.get container_id s.containers)) set_oom_killed)
        s
  handle_event other s = (ok tt, s)
  handle_event (undecodable e) s = (ok tt, s)

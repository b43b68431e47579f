-- ===== src/Containers/ExecSync.antt =====
-- pkg/server/container_execsync.go and container_exec.go: commands in a running container.
pub mod Outcome
use cri_containerd.Base.{
  ℕ, ◌==◌, ◌&&◌, string_eq, String, Bool, false, Option, none, some, List, [], ◌∷◌, Error, Result,
  ok, err, panic, errorf, wrap, map_result,
}
use cri_containerd.Base.Int.{ℤ, pos, to_int32, mul_int64}
use cri_containerd.Cri.{running, state_eq}
use cri_containerd.Store.Status.{state}
use cri_containerd.Store.Container.{Container}
use cri_containerd.Exec.{Exec, pure, guard, fault_panic, lift, wrap_error, finally, ◌>>=◌, ◌>>◌}
use cri_containerd.Service.{State, Env, TaskExit, StreamEvent, Process, ExecRequest, call, effect}
use cri_containerd.Service.Stream.{wait_for}
use cri_containerd.Containers.Common.{get_container, get_status, ignore}
use cri_containerd.Containers.Start.{cri_container_state_to_string}
use cri_containerd.Containers.Stop.{second}

-- `remotecommand.TerminalSize`
pub record TerminalSize : Type 0 where
  pub width : ℕ  -- uint16
  pub height : ℕ  -- uint16

-- `execOptions`; the channel of sizes is not part of it, see `handle_resizing`
pub record ExecOptions : Type 0 where
  pub cmd : List String
  pub stdin : Option ℕ
  pub stdout : ℕ
  pub stderr : ℕ
  pub tty : Bool
  pub timeout : ℤ

-- `runtime.ExecSyncResponse`
pub record ExecSyncResponse : Type 0 where
  pub stdout : String
  pub stderr : String
  pub exit_code : ℤ  -- int32

abbrev pub is_exit_of : String → String → TaskExit → Bool
is_exit_of id exec_id e = e.container_id == id && e.id == exec_id

-- the loop of `waitContainerExec` over the events of the stream, which ends in an error
unfoldable pub wait_exec : String → String → List StreamEvent → Error → Result ℕ
wait_exec id exec_id events last =
    map_result (λ e. e.exit_status) (wait_for (is_exit_of id exec_id) events last)

module _ (env : Env) where
  open env use {
    World, generate_id, subscribe, receive_all, load_container, spec_process, container_task,
    task_exec, process_start, process_delete, process_wait_io, new_buffer, buffer_bytes, get_exec,
  }

  unfoldable pub wait_container_exec : ℕ → String → String → Exec (State World) ℕ
  wait_container_exec stream id exec_id = do
    (events, last) ← effect (receive_all stream)
    lift (wait_exec id exec_id events last)

  -- from the subscription on, before the deferred deletion of the process
  run_process : String → String → ℕ → Exec (State World) ℕ
  run_process id exec_id process = do
    stream ← wrap_error (wrap "failed to subscribe event stream: %v" []) (call subscribe)
    wrap_error (wrap "failed to start exec %q: %v" (exec_id ∷ [])) (call (process_start process))
    code ←
        wrap_error (wrap "failed to wait for exec in container %q to finish: %v" (id ∷ []))
          (wait_container_exec stream id exec_id)
    effect (process_wait_io process)
    pure code

  -- an empty buffer stands for a nil stdin
  stdin_or_empty : Option ℕ → Exec (State World) ℕ
  stdin_or_empty none = effect new_buffer
  stdin_or_empty (some reader) = pure reader

  -- The specification of a container points to its process; a nil pointer panics.
  of_process : Option Process → Exec (State World) Process
  of_process none = fault_panic
  of_process (some p) = pure p

  -- `execInContainer` once the container is known to run
  exec_running : String → ExecOptions → Exec (State World) ℕ
  unfolding stdin_or_empty of_process run_process
  exec_running id opts = do
    container ← wrap_error (wrap "failed to load container: %v" []) (call (load_container id))
    spec ← wrap_error (wrap "failed to get container spec: %v" []) (call (spec_process container))
    task ← wrap_error (wrap "failed to load task: %v" []) (call (container_task container))
    process_spec ← of_process spec
    stdin ← stdin_or_empty opts.stdin
    exec_id ← effect generate_id
    process ← wrap_error (wrap "failed to create exec %q: %v" (exec_id ∷ [])) (
        call (
          task_exec task exec_id (record process_spec { args = opts.cmd; terminal = opts.tty })
            (record {
              stdin = stdin;
              stdout = opts.stdout;
              stderr = opts.stderr;
              terminal = opts.tty;
            })))
    finally (ignore (call (process_delete process))) (run_process id exec_id process)

  -- the two guards that `execInContainer` and `Exec` begin with
  running_container : String → Exec (State World) Container
  running_container id = do
    c ← wrap_error (wrap "failed to find container in store: %v" []) (get_container id)
    status ← get_status c
    guard (state status == running)
        (errorf "container is in %s state" (cri_container_state_to_string (state status) ∷ []))
    pure c

  -- `execInContainer`
  unfoldable pub exec_in_container : String → ExecOptions → Exec (State World) ℕ
  unfolding running_container exec_running
  exec_in_container id opts = do c ← running_container id; exec_running c.metadata.id opts

  -- `ExecSync`, with the timeout of the request in seconds
  unfoldable pub exec_sync : String → List String → ℤ → Exec (State World) ExecSyncResponse
  exec_sync container_id cmd timeout = do
    stdout ← effect new_buffer
    stderr ← effect new_buffer
    code ← wrap_error (wrap "failed to exec in container: %v" []) (
        exec_in_container container_id (record {
          cmd = cmd;
          stdin = none;
          stdout = stdout;
          stderr = stderr;
          tty = false;
          timeout = mul_int64 timeout second;
        }))
    out ← effect (buffer_bytes stdout)
    errors ← effect (buffer_bytes stderr)
    pure (record { stdout = out; stderr = errors; exit_code = to_int32 code })

  -- `Exec`: the address at which the command can be streamed
  unfoldable pub exec : ExecRequest → Exec (State World) String
  unfolding running_container
  exec r = do c ← running_container r.container_id; call (get_exec r)

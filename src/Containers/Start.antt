-- ===== src/Containers/Start.antt =====
-- pkg/server/container_start.go, with `prepareStreamingPipes` of helpers.go and the start of the
-- loggers of pkg/server/agents.
pub mod Outcome
use cri_containerd.Base.{
  ℕ, ◌==◌, not, string_eq, String, Bool, true, false, Option, none, some, List, [], ◌∷◌,
  if◌then◌else◌, Result, ok, err, panic, Error, errorf, wrap,
}
use cri_containerd.Base.Int.{ℤ, pos}
use cri_containerd.Cri.{ContainerState, created, state_eq, ContainerConfig}
use cri_containerd.Paths.{get_container_root_dir, get_streaming_pipes, path_join}
use cri_containerd.Store.Status.{Status, state, text_of}
use cri_containerd.Store.Heap.{write}
use cri_containerd.Store.Container.{Container, Metadata}
use cri_containerd.Store.Sandbox
use cri_containerd.Store.Sandbox.{Sandbox}
use cri_containerd.Exec.{Exec, pure, guard, wrap_error, on_error, fault_panic, ◌>>=◌, ◌>>◌}
use cri_containerd.Service.{State, Env, CreateTask, is_running, call, effect}
use cri_containerd.Containers.Common.{get_container, ignore, with_storage}

-- `runtime.ContainerState_name`
unfoldable pub cri_container_state_to_string : ContainerState → String
cri_container_state_to_string ContainerState.created = "CONTAINER_CREATED"
cri_container_state_to_string ContainerState.running = "CONTAINER_RUNNING"
cri_container_state_to_string ContainerState.exited = "CONTAINER_EXITED"
cri_container_state_to_string ContainerState.unknown = "CONTAINER_UNKNOWN"

pub record Pipes : Type 0 where
  pub stdin : Option ℕ
  pub stdout : Option ℕ
  pub stderr : Option ℕ

module _ (env : Env) where
  open env use {
    World, root_dir, now, task_get, task_create, task_start, task_delete, snapshot_mounts,
    open_fifo, close, open_file,
  }

  unfoldable pub open_pipe : String → Bool → Exec (State World) (Option ℕ)
  open_pipe path writes = if path == "" then pure none else do
    p ←
        wrap_error (wrap "failed to open named pipe %q: %v" (path ∷ []))
          (call (open_fifo path writes 0o700))
    pure (some p)

  unfoldable pub close_pipe : Option ℕ → Exec (State World) (Unit {0})
  close_pipe none = pure tt
  close_pipe (some p) = ignore (call (close p))

  -- Go ranges over the map of the three streams in any order; here they are opened as listed.
  unfoldable pub prepare_streaming_pipes : String → String → String → Exec (State World) Pipes
  prepare_streaming_pipes stdin stdout stderr = do
    i ← open_pipe stdin true
    on_error (close_pipe i) do
      o ← open_pipe stdout false
      on_error (close_pipe o)
          do e ← open_pipe stderr false; pure (record { stdin = i; stdout = o; stderr = e })

  -- `Close` of a nil pipe panics; only stdin is tested.
  unfoldable pub close_output : Option ℕ → Exec (State World) (Unit {0})
  close_output none = fault_panic
  close_output (some p) = ignore (call (close p))

  close_pipes : Pipes → Exec (State World) (Unit {0})
  close_pipes p = do close_pipe p.stdin; close_output p.stdout; close_output p.stderr

  -- `containerLogger.Start`
  container_logger_start : String → Exec (State World) (Unit {0})
  container_logger_start path =
      wrap_error (wrap "failed to open log file %q: %v" (path ∷ [])) (call (open_file path))

  -- There is no stderr logger when there is a tty.
  start_stderr_logger : Bool → String → Exec (State World) (Unit {0})
  unfolding container_logger_start
  start_stderr_logger true log_path = pure tt
  start_stderr_logger false log_path =
      wrap_error (wrap "failed to start container stderr logger: %v" [])
        (container_logger_start log_path)

  start_loggers : ContainerConfig → String → Exec (State World) (Unit {0})
  unfolding container_logger_start start_stderr_logger
  start_loggers config log_directory = if config.log_path == "" then pure tt else do
    let log_path = path_join (log_directory ∷ config.log_path ∷ [])
    wrap_error (wrap "failed to start container stdout logger: %v" [])
        (container_logger_start log_path)
    start_stderr_logger config.tty log_path

  -- From the loggers on, up to the start of the task: its pid.
  start_task : String → ContainerConfig → String → String × String × String → Exec (State World) ℕ
  start_task id config log_directory (stdin, stdout, stderr) = do
    start_loggers config log_directory
    mounts ←
        wrap_error (wrap "failed to get rootfs mounts %q: %v" (id ∷ [])) (call (snapshot_mounts id))
    pid ← wrap_error (wrap "failed to create containerd task: %v" []) (
        call (
          task_create (record {
            container_id = id;
            rootfs = mounts;
            stdin = stdin;
            stdout = stdout;
            stderr = stderr;
            terminal = config.tty;
          })))
    on_error (ignore (call (task_delete id))) do
      wrap_error (wrap "failed to start containerd task %q: %v" (id ∷ [])) (call (task_start id))
      pure pid

  -- `startContainer` after its two guards
  pub start_created : String → Metadata → Exec (State World) ℕ
  start_created id meta = do
    sandbox ←
        wrap_error (wrap "sandbox %q not found: %v" (meta.sandbox_id ∷ []))
          (λ s. (Sandbox.get meta.sandbox_id s.sandboxes, s))
    info ←
        wrap_error (wrap "failed to get sandbox container %q info: %v" (meta.sandbox_id ∷ []))
          (call (task_get meta.sandbox_id))
    guard (is_running info.status)
        (errorf "sandbox container %q is not running" (meta.sandbox_id ∷ []))
    let paths = get_streaming_pipes (get_container_root_dir root_dir id)
    let stdin = if meta.config.stdin then paths.0 else ""
    pipes ←
        wrap_error (wrap "failed to prepare streaming pipes: %v" [])
          (prepare_streaming_pipes stdin paths.1 paths.2)
    on_error (close_pipes pipes)
        (start_task id meta.config sandbox.config.log_directory (stdin, paths.1, paths.2))

  -- the deferred function that sets the container to exited
  abbrev set_start_error : Status → ℤ → Error → Status
  set_start_error status at e = record status {
    pid = 0;
    finished_at = at;
    exit_code = pos 128;
    reason = "StartError";
    message = text_of e;
  }

  -- what `startContainer` makes of the outcome, with the new status
  unfoldable pub finish_start :
      Status → Result ℕ × State World → (Result (Unit {0}) × Status) × State World
  finish_start status (ok pid, s) =
      let (at, w) = now s.world in
      ((ok tt, record status { pid = pid; started_at = at }), record s { world = w })
  finish_start status (err e, s) =
      let (at, w) = now s.world in ((err e, set_start_error status at e), record s { world = w })
  finish_start status (panic, s) = ((panic, status), s)

  -- `startContainer`: the outcome and the status, which is written whatever the outcome
  unfoldable pub run_start :
      String → Metadata → Status → State World → (Result (Unit {0}) × Status) × State World
  run_start id meta status s =
      if not (state status == created)
      then (
        (
          err (
              errorf "container %q is in %s state"
                (id ∷ cri_container_state_to_string (state status) ∷ [])),
          status,
        ),
        s,
      )
      else if status.removing
      then ((err (errorf "container %q is in removing state" (id ∷ [])), status), s)
      else finish_start status (start_created id meta s)

  -- the update function of `StartContainer`: it returns no error, so the status is written
  commit_start : ℕ → (Result (Unit {0}) × Status) × State World → Result (Unit {0}) × State World
  commit_start a ((panic, status), s) = (panic, s)
  commit_start a ((r, status), s) = (r, record s { heap = write a status s.heap })

  -- `StartContainer`
  unfoldable pub start_container : String → Exec (State World) (Unit {0})
  unfolding commit_start
  start_container container_id = do
    c ←
        wrap_error (wrap "an error occurred when try to find container %q: %v" (container_id ∷ []))
          (get_container container_id)
    with_storage c λ a s. commit_start a (run_start c.metadata.id c.metadata (s.heap.cell a) s)

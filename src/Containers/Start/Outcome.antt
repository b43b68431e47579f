-- ===== src/Containers/Start/Outcome.antt =====
-- What `StartContainer` changes, and how it ends.
use cri_containerd.Base.{
  ℕ, String, ◌≡◌, ◌≢◌, refl, true, false, none, some, ok, err, panic, Result, arith, Option, Bool,
  nat_beq_iff,
}
use cri_containerd.Cri.{ContainerConfig}
use cri_containerd.Store.Status.{Status}
use cri_containerd.Store.Heap
use cri_containerd.Store.Heap.{Heap}
use cri_containerd.Store.Container
use cri_containerd.Store.Container.{Container, Metadata}
use cri_containerd.Exec.Keeps.{Keeps}
use cri_containerd.Service.{State, Env}
use cri_containerd.Service.Frame.{Outside, outside_rules}
use cri_containerd.Containers.Start.{
  Pipes, open_pipe, close_pipe, prepare_streaming_pipes, close_output, close_pipes,
  container_logger_start, start_stderr_logger, start_loggers, start_task, start_created,
  finish_start, run_start, commit_start, start_container,
}

module _ (env : Env) (s0 : State env.World) where
  open_pipe-Outside :
      (path : String) (writes : Bool) → Keeps (Outside s0) (open_pipe env path writes)
  unfolding open_pipe
  open_pipe-Outside path writes = search outside_rules depth 8

  close_pipe-Outside : (p : Option ℕ) → Keeps (Outside s0) (close_pipe env p)
  unfolding close_pipe
  close_pipe-Outside none = search outside_rules
  close_pipe-Outside (some p) = search outside_rules

  pub close_output-Outside : (p : Option ℕ) → Keeps (Outside s0) (close_output env p)
  unfolding close_output
  close_output-Outside none = search outside_rules
  close_output-Outside (some p) = search outside_rules

  close_pipes-Outside : (p : Pipes) → Keeps (Outside s0) (close_pipes env p)
  unfolding close_pipes
  close_pipes-Outside p = search (outside_rules, close_pipe-Outside, close_output-Outside) depth 8

  pub prepare_streaming_pipes-Outside :
      (i o e : String) → Keeps (Outside s0) (prepare_streaming_pipes env i o e)
  unfolding prepare_streaming_pipes
  prepare_streaming_pipes-Outside i o e =
      search (outside_rules, open_pipe-Outside, close_pipe-Outside) depth 12

  container_logger_start-Outside :
      (path : String) → Keeps (Outside s0) (container_logger_start env path)
  unfolding container_logger_start
  container_logger_start-Outside path = search outside_rules

  start_stderr_logger-Outside :
      (tty : Bool) (path : String) → Keeps (Outside s0) (start_stderr_logger env tty path)
  unfolding start_stderr_logger
  start_stderr_logger-Outside true path = search outside_rules
  start_stderr_logger-Outside false path = search (outside_rules, container_logger_start-Outside)

  start_loggers-Outside :
      (config : ContainerConfig) (dir : String) → Keeps (Outside s0) (start_loggers env config dir)
  unfolding start_loggers
  start_loggers-Outside config dir =
      search (outside_rules, container_logger_start-Outside, start_stderr_logger-Outside) depth 8

  start_task-Outside :
      (id : String) (config : ContainerConfig) (dir : String) (paths : String × String × String)
      → Keeps (Outside s0) (start_task env id config dir paths)
  unfolding start_task
  start_task-Outside id config dir (i, o, e) =
      search (outside_rules, start_loggers-Outside) depth 12

  start_created-Outside :
      (id : String) (meta : Metadata) → Keeps (Outside s0) (start_created env id meta)
  unfolding start_created
  start_created-Outside id meta =
      search
        (outside_rules, prepare_streaming_pipes-Outside, close_pipes-Outside, start_task-Outside)
        depth 16

-- What a start changes: the world, and the status of the one container.
pub record OnlyStatus {W : Type 0} (a : ℕ) (s s' : State W) : Type 0 where
  pub same_containers : s'.containers ≡ s.containers
  pub same_names : s'.container_names ≡ s.container_names
  pub same_sandboxes : s'.sandboxes ≡ s.sandboxes
  pub same_sandbox_names : s'.sandbox_names ≡ s.sandbox_names
  pub same_images : s'.images ≡ s.images
  pub same_next : s'.heap.next ≡ s.heap.next
  pub same_cells : (b : ℕ) → b ≢ a → s'.heap.cell b ≡ s.heap.cell b

module _ (env : Env) where
  open env use {World}

  finish_start-Outside :
      (status : Status) (o : Result ℕ × State World) (s0 : State World)
      → Outside s0 o.1
      → Outside s0 (finish_start env status o).1
  unfolding finish_start
  finish_start-Outside status (ok pid, s) s0 h = ground (arith, h)
  finish_start-Outside status (err e, s) s0 h = ground (arith, h)
  finish_start-Outside status (panic, s) s0 h = h

  run_start-Outside :
      (id : String) (meta : Metadata) (status : Status) (s : State World)
      → Outside s (run_start env id meta status s).1
  unfolding run_start
  run_start-Outside id meta status s = ground (
    arith,
    finish_start-Outside status (start_created env id meta s) s
        ((start_created-Outside env s id meta).at s refl),
  )

  stored-OnlyStatus :
      (a : ℕ) (s s' : State World) (status : Status)
      → Outside s s'
      → OnlyStatus a s (record s' { heap = Heap.write a status s'.heap })
  unfolding Heap.write
  stored-OnlyStatus a s s' status h = record {
    same_containers = ground (arith, h);
    same_names = ground (arith, h);
    same_sandboxes = ground (arith, h);
    same_sandbox_names = ground (arith, h);
    same_images = ground (arith, h);
    same_next = ground (arith, h);
    same_cells = λ b ne. ground (arith, h, nat_beq_iff b a);
  }

  -- What a start leaves behind, given the outcome and the status of `startContainer`.
  abbrev pub StartedAs :
      ℕ → State World → Result (Unit {0}) × Status → Result (Unit {0}) × State World → Type 0
  StartedAs a s (r, status) (r', s') =
      (r' ≡ r) × (r ≢ panic → s'.heap.cell a ≡ status) × OnlyStatus a s s'

  commit_start-StartedAs :
      (a : ℕ) (s : State World) (o : (Result (Unit {0}) × Status) × State World)
      → Outside s o.1
      → StartedAs a s o.0 (commit_start env a o)
  unfolding commit_start Heap.write
  commit_start-StartedAs a s ((panic, status), s') h =
      (refl, (λ n. absurd (n refl)), ground (arith, h))
  commit_start-StartedAs a s ((ok u, status), s') h =
      (refl, (λ _. ground (arith, nat_beq_iff a a)), stored-OnlyStatus a s s' status h)
  commit_start-StartedAs a s ((err e, status), s') h =
      (refl, (λ _. ground (arith, nat_beq_iff a a)), stored-OnlyStatus a s s' status h)

  start_container_lem :
      (id : String) (c : Container) (a : ℕ) (s : State World)
      → Container.get id s.containers ≡ ok c
      → c.status ≡ some a
      → start_container env id s
        ≡ commit_start env a (run_start env c.metadata.id c.metadata (s.heap.cell a) s)
  unfolding start_container
  start_container_lem id c a s found stored = ground (arith, found, stored)

  -- `StartContainer` of a container in the store changes nothing of the service but the status of
  -- that container, and leaves there what `startContainer` made of it, whether it succeeded or not.
  pub start_container_effect :
      (id : String) (c : Container) (a : ℕ) (s : State World)
      → Container.get id s.containers ≡ ok c
      → c.status ≡ some a
      → StartedAs a s
          (run_start env c.metadata.id c.metadata (s.heap.cell a) s).0
          (start_container env id s)
  start_container_effect id c a s found stored =
      rw (start_container_lem id c a s found stored) (
        commit_start-StartedAs a s _ (run_start-Outside c.metadata.id c.metadata (s.heap.cell a) s))

-- ===== src/Containers/ExecSync/Outcome.antt =====
-- A command run in a container, pkg/server/container_execsync.go: the service and the exit code.
use cri_containerd.Base.{
  ℕ, String, ◌≡◌, ◌≢◌, inl, inr, refl, List, Option, none, some, ok, err, Result, arith, Error,
  Result-cases, Option-cases, not_exist,
}
use cri_containerd.Cri.{running, state_eq, state_beq_iff}
use cri_containerd.Store.Status.{state}
use cri_containerd.Store.Container
use cri_containerd.Store.Container.{Container}
use cri_containerd.Exec.{Exec, ◌>>=◌}
use cri_containerd.Exec.Keeps.{Keeps}
use cri_containerd.Exec.Returns.{Returns, Returns-bind, Returns-pure, returns_rules}
use cri_containerd.Service.{State, Env, TaskExit, StreamEvent, Process, effect}
use cri_containerd.Service.Frame.{Outside, outside_rules}
use cri_containerd.Service.Stream.{wait_for}
use cri_containerd.Service.Stream.Delivered.{Delivered, wait_for_lem}
use cri_containerd.Containers.Common.{get_container, get_status}
use cri_containerd.Containers.ExecSync.{
  ExecOptions, is_exit_of, wait_exec, wait_container_exec, run_process, stdin_or_empty, of_process,
  exec_running, running_container, exec_in_container,
}

module _ (env : Env) where
  open env use {World, receive_all, generate_id}

  wait-Outside :
      (s0 : State World) (stream : ℕ) (id exec_id : String)
      → Keeps (Outside s0) (wait_container_exec env stream id exec_id)
  unfolding wait_container_exec
  wait-Outside s0 stream id exec_id = search outside_rules depth 8

  run_process-Outside :
      (s0 : State World) (id exec_id : String) (p : ℕ)
      → Keeps (Outside s0) (run_process env id exec_id p)
  unfolding run_process
  run_process-Outside s0 id exec_id p = search (outside_rules, wait-Outside) depth 12

  stdin-Outside : (s0 : State World) (o : Option ℕ) → Keeps (Outside s0) (stdin_or_empty env o)
  unfolding stdin_or_empty
  stdin-Outside s0 none = search outside_rules
  stdin-Outside s0 (some r) = search outside_rules

  of_process-Outside :
      (s0 : State World) (o : Option Process) → Keeps (Outside s0) (of_process env o)
  unfolding of_process
  of_process-Outside s0 none = search outside_rules
  of_process-Outside s0 (some p) = search outside_rules

  exec_running-Outside :
      (s0 : State World) (id : String) (opts : ExecOptions)
      → Keeps (Outside s0) (exec_running env id opts)
  unfolding exec_running
  exec_running-Outside s0 id opts =
      search (outside_rules, run_process-Outside, stdin-Outside, of_process-Outside) depth 16

  -- The code is that of the first exit of the process `exec_id` of the container on some stream.
  abbrev pub ExitCode : String → String → ℕ → Type 0
  ExitCode id exec_id code =
      (stream : ℕ) × (w : World) × (e : TaskExit) × Delivered (is_exit_of id exec_id)
        (receive_all stream w).0.0 e
      × (e.exit_status ≡ code)

  wait-Returns :
      (stream : ℕ) (id exec_id : String)
      → Returns (ExitCode id exec_id) (wait_container_exec env stream id exec_id)
  unfolding wait_container_exec wait_exec
  wait-Returns stream id exec_id = record {
    at = λ s code h.
        let events : List StreamEvent = (receive_all stream s.world).0.0 in
        let last : Error = (receive_all stream s.world).0.1 in
        elim (Result-cases (wait_for (is_exit_of id exec_id) events last)) [
          | inl (e, found) ↦ (
            stream,
            s.world,
            e,
            (wait_for_lem (is_exit_of id exec_id) events last e).0 found,
            ground (arith, found, h),
          )
          | inr (inl (f, failed)) ↦ absurd (ground (arith, failed, h))
          | inr (inr panics) ↦ absurd (ground (arith, panics, h))
        ];
  }

  run_process-Returns :
      (id exec_id : String) (p : ℕ) → Returns (ExitCode id exec_id) (run_process env id exec_id p)
  unfolding run_process
  run_process-Returns id exec_id p =
      search (returns_rules, Returns-bind (ExitCode id exec_id), Returns-pure, wait-Returns) depth
        12

  -- the same for an id that was generated
  abbrev pub RunCode : String → ℕ → Type 0
  RunCode id code = (w : World) × ExitCode id (generate_id w).0 code

  generated :
      (id : String) (f : String → Exec (State World) ℕ)
      → ((exec_id : String) → Returns (ExitCode id exec_id) (f exec_id))
      → Returns (RunCode id) (effect generate_id >>= f)
  generated id f after = record {
    at = λ s code h. (s.world, (after (generate_id s.world).0).at _ code h);
  }

  exec_running-Returns :
      (id : String) (opts : ExecOptions) → Returns (RunCode id) (exec_running env id opts)
  unfolding exec_running
  exec_running-Returns id opts = search (returns_rules, generated, run_process-Returns) depth 16

  get_container-Keeps :
      {P : State World → Type 0} (id : String) → Keeps P (get_container {W = World} id)
  get_container-Keeps id = record { at = λ s h. h }

  get_status-Keeps : {P : State World → Type 0} (c : Container) → Keeps P (get_status {W = World} c)
  get_status-Keeps {P} c = record {
    at = λ s h. elim (Option-cases c.status) [ inl e ↦ rw e h | inr (a, e) ↦ rw e h ];
  }

  running_container-Outside :
      (s0 : State World) (id : String) → Keeps (Outside s0) (running_container env id)
  unfolding running_container
  running_container-Outside s0 id =
      search (outside_rules, get_container-Keeps, get_status-Keeps) depth 12

  exec_in_container-Outside :
      (s0 : State World) (id : String) (opts : ExecOptions)
      → Keeps (Outside s0) (exec_in_container env id opts)
  unfolding exec_in_container
  exec_in_container-Outside s0 id opts =
      search (outside_rules, running_container-Outside, exec_running-Outside) depth 8

  -- How `execInContainer` ends. Whatever happens, nothing of the service changes. It refuses a
  -- container that is not in the store or is not running, and then calls nothing outside. If it
  -- succeeds, the container was running, and the code is the exit status of the first exit that a
  -- stream of containerd delivers of the process of a generated id in that container.
  abbrev pub Executed : String → State World → Result ℕ × State World → Type 0
  Executed id s0 (r, s) =
      Outside s0 s
      × ((Container.get id s0.containers ≡ err not_exist) → (s ≡ s0) × ((code : ℕ) → r ≢ ok code))
      × ((c : Container) (a : ℕ)
          → Container.get id s0.containers ≡ ok c
          → c.status ≡ some a
          → ((state (s0.heap.cell a) ≢ running) → (s ≡ s0) × ((code : ℕ) → r ≢ ok code))
            × ((code : ℕ)
                → r ≡ ok code
                → (state (s0.heap.cell a) ≡ running) × RunCode c.metadata.id code))

  pub exec_in_container-Executed :
      (id : String) (opts : ExecOptions) (s0 : State World)
      → Executed id s0 (exec_in_container env id opts s0)
  unfolding exec_in_container running_container
  exec_in_container-Executed id opts s0 = (
    (exec_in_container-Outside s0 id opts).at s0 refl,
    λ missing. (ground (arith, missing), λ code h. ground (arith, missing, h)),
    λ c a found stored. (
      λ stopped. (
        ground (arith, found, stored, state_beq_iff (state (s0.heap.cell a)) running),
        λ code h. ground (arith, found, stored, h, state_beq_iff (state (s0.heap.cell a)) running),
      ),
      λ code h. (
        ground (arith, found, stored, h, state_beq_iff (state (s0.heap.cell a)) running),
        (exec_running-Returns c.metadata.id opts).at s0 code
            (ground (arith, found, stored, h, state_beq_iff (state (s0.heap.cell a)) running)),
      ),
    ),
  )

-- ===== src/Sandboxes/Stop/Frame.antt =====
-- What stopping a sandbox container changes of the service.
use cri_containerd.Base.{ℕ, String, Option, none, some}
use cri_containerd.Exec.Keeps.{Keeps}
use cri_containerd.Service.{State, Env, Task}
use cri_containerd.Service.Frame.{Outside, outside_rules}
use cri_containerd.Sandboxes.Stop.{
  wait_sandbox_container, kill_sandbox_task, stop_task, stop_sandbox_container,
}

module _ (env : Env) (s0 : State env.World) where
  wait-Outside :
      (stream : ℕ) (id : String) (pid : ℕ)
      → Keeps (Outside s0) (wait_sandbox_container env stream id pid)
  unfolding wait_sandbox_container
  wait-Outside stream id pid = search outside_rules depth 8

  kill_sandbox_task-Outside :
      (stream : ℕ) (id : String) (t : Task) → Keeps (Outside s0) (kill_sandbox_task env stream id t)
  unfolding kill_sandbox_task
  kill_sandbox_task-Outside stream id t = search (outside_rules, wait-Outside) depth 10

  stop_task-Outside :
      (stream : ℕ) (id : String) (o : Option Task) → Keeps (Outside s0) (stop_task env stream id o)
  unfolding stop_task
  stop_task-Outside stream id none = search outside_rules
  stop_task-Outside stream id (some t) = search (outside_rules, kill_sandbox_task-Outside) depth 8

  pub stop_sandbox_container-Outside :
      (id : String) → Keeps (Outside s0) (stop_sandbox_container env id)
  unfolding stop_sandbox_container
  stop_sandbox_container-Outside id = search (outside_rules, stop_task-Outside) depth 10

-- ===== src/Sandboxes/Stop.antt =====
-- pkg/server/sandbox_stop.go
pub mod Frame
pub mod Undisturbed
pub mod Outcome
pub mod Wait
use cri_containerd.Base.{
  ℕ, ◌==◌, ◌&&◌, not, nat_eq, string_eq, String, Bool, true, false, Option, none, some, List, [],
  ◌∷◌, if◌then◌else◌, Result, ok, err, panic, Error, wrap, map_result,
}
use cri_containerd.Base.Int.{pos}
use cri_containerd.Paths.{get_sandbox_root_dir}
use cri_containerd.Store.Container.{Container}
use cri_containerd.Store.Sandbox
use cri_containerd.Store.Sandbox.{Sandbox}
use cri_containerd.Exec.{Exec, pure, raise, lift, wrap_error, unless, optional, reads, ◌>>=◌, ◌>>◌}
use cri_containerd.Service.{State, Env, Task, StreamEvent, is_stopped, call, effect}
use cri_containerd.Service.Stream.{wait_for}
use cri_containerd.Containers.Common.{
  list_containers_in_store, is_containerd_grpc_not_found_error,
  is_runc_process_already_finished_error,
}
use cri_containerd.Containers.Stop.{run_stop, sigkill}
use cri_containerd.Sandboxes.Files.{unmount_sandbox_files}
use cri_containerd.Sandboxes.Query.{namespace_of, name_of}

-- the loop of `waitSandboxContainer` over the events of the stream, which ends in an error
unfoldable pub wait_exit : String → ℕ → List StreamEvent → Error → Result (Unit {0})
wait_exit id pid events last =
    map_result (λ e. tt) (wait_for (λ e. e.container_id == id && e.pid == pid) events last)

module _ (env : Env) where
  open env use {
    World, root_dir, os_is_not_exist, task_get, task_kill, task_delete, subscribe, receive_all,
    stat, tear_down_pod,
  }

  unfoldable pub wait_sandbox_container : ℕ → String → ℕ → Exec (State World) (Unit {0})
  unfolding wait_exit
  wait_sandbox_container stream id pid = do
    (events, last) ← effect (receive_all stream)
    lift (wait_exit id pid events last)

  -- the kill of a sandbox container that has not stopped, and the wait for its exit
  kill_sandbox_task : ℕ → String → Task → Exec (State World) (Unit {0})
  unfolding wait_sandbox_container
  kill_sandbox_task stream id t = if is_stopped t.status then pure tt else do
    wrap_error (wrap "failed to kill sandbox container: %v" []) (
        unless (is_runc_process_already_finished_error env)
          (unless (is_containerd_grpc_not_found_error env) (call (task_kill id sigkill))))
    wrap_error (wrap "failed to wait for pod sandbox to stop: %v" [])
        (wait_sandbox_container stream id t.pid)

  -- a task that is not found has been stopped already
  stop_task : ℕ → String → Option Task → Exec (State World) (Unit {0})
  unfolding kill_sandbox_task
  stop_task stream id none = pure tt
  stop_task stream id (some t) = do
    kill_sandbox_task stream id t
    wrap_error (wrap "failed to delete sandbox container: %v" [])
        (unless (is_containerd_grpc_not_found_error env) (call (task_delete id)))

  unfoldable pub stop_sandbox_container : String → Exec (State World) (Unit {0})
  unfolding stop_task
  stop_sandbox_container id = do
    stream ← wrap_error (wrap "failed to get containerd event: %v" []) (call subscribe)
    found ←
        wrap_error (wrap "failed to get sandbox container: %v" [])
          (optional (is_containerd_grpc_not_found_error env) (call (task_get id)))
    stop_task stream id found

  stop_member : String → Container → Exec (State World) (Unit {0})
  stop_member id c =
      if c.metadata.sandbox_id == id
      then wrap_error (wrap "failed to stop container %q: %v" (c.metadata.id ∷ []))
          (run_stop env c (pos 0))
      else pure tt

  -- the loop over the containers of the sandbox, which are killed without a grace period
  unfoldable pub stop_members : String → List Container → Exec (State World) (Unit {0})
  unfolding stop_member
  stop_members id [] = pure tt
  stop_members id (c ∷ cs) = stop_member id c >> stop_members id cs

  -- a network namespace that is gone needs no teardown
  tear_down_if : Sandbox → Option (Unit {0}) → Exec (State World) (Unit {0})
  tear_down_if sb none = pure tt
  tear_down_if sb (some _) =
      if not sb.config.namespace_options.host_network
      then wrap_error (wrap "failed to destroy network for sandbox %q: %v" (sb.id ∷ []))
          (call (tear_down_pod sb.net_ns (namespace_of sb.config) (name_of sb.config) sb.id))
      else pure tt

  tear_down : Sandbox → Exec (State World) (Unit {0})
  unfolding tear_down_if
  tear_down sb = do
    there ←
        wrap_error
          (wrap "failed to stat netns path for sandbox %q before tearing down the network: %v"
            (sb.id ∷ []))
          (optional os_is_not_exist (call (stat sb.net_ns)))
    tear_down_if sb there

  -- what `StopPodSandbox` does after it has stopped the containers
  unfoldable pub release_sandbox : Sandbox → Exec (State World) (Unit {0})
  unfolding tear_down unmount_sandbox_files
  release_sandbox sb = do
    tear_down sb
    let root = get_sandbox_root_dir root_dir sb.id
    wrap_error (wrap "failed to unmount sandbox files in %q: %v" (root ∷ []))
        (unmount_sandbox_files env root sb.config)
    wrap_error (wrap "failed to stop sandbox container %q: %v" (sb.id ∷ []))
        (stop_sandbox_container sb.id)

  -- `StopPodSandbox`
  unfoldable pub stop_pod_sandbox : String → Exec (State World) (Unit {0})
  unfolding stop_members release_sandbox
  stop_pod_sandbox pod_sandbox_id = do
    sb ←
        wrap_error (wrap "an error occurred when try to find sandbox %q: %v" (pod_sandbox_id ∷ []))
          (reads λ s. Sandbox.get pod_sandbox_id s.sandboxes)
    cs ← list_containers_in_store
    stop_members sb.id cs
    release_sandbox sb

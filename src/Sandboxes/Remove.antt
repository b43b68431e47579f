-- ===== src/Sandboxes/Remove.antt =====
-- pkg/server/sandbox_remove.go
pub mod Shrunk
pub mod Outcome
use cri_containerd.Base.{
  ◌==◌, string_eq, String, Bool, true, false, Option, none, some, List, [], ◌∷◌, if◌then◌else◌,
  Result, ok, err, panic, Error, errorf, wrap, not_exist, is_some, not,
}
use cri_containerd.Paths.{get_sandbox_root_dir}
use cri_containerd.Registrar.{release_by_key}
use cri_containerd.Store.Container.{Container}
use cri_containerd.Store.Sandbox
use cri_containerd.Store.Sandbox.{Sandbox}
use cri_containerd.Exec.{Exec, pure, guard, wrap_error, unless, optional, modify, ◌>>=◌, ◌>>◌}
use cri_containerd.Service.{State, Env, call}
use cri_containerd.Containers.Common.{list_containers_in_store, is_containerd_grpc_not_found_error}
use cri_containerd.Containers.Remove.{remove_container}

-- the sandbox leaves the store and its name is free
unfoldable pub forget_sandbox : {W : Type 0} → String → Exec (State W) (Unit {0})
forget_sandbox id =
    modify (λ s. record s { sandboxes = Sandbox.delete id s.sandboxes })
    >> modify (λ s. record s { sandbox_names = release_by_key id s.sandbox_names })

module _ (env : Env) where
  open env use {
    World, root_dir, is_not_found, task_get, snapshot_remove, remove_all, container_delete,
  }

  unfoldable pub remove_member : String → Container → Exec (State World) (Unit {0})
  remove_member id c =
      if c.metadata.sandbox_id == id
      then wrap_error (wrap "failed to remove container %q: %v" (c.metadata.id ∷ []))
          (remove_container env c.metadata.id)
      else pure tt

  -- the loop over the containers of the sandbox
  unfoldable pub remove_members : String → List Container → Exec (State World) (Unit {0})
  remove_members id [] = pure tt
  remove_members id (c ∷ cs) = remove_member id c >> remove_members id cs

  -- what comes before the containers are removed: the sandbox container must be gone
  unfoldable pub check_stopped : String → Exec (State World) (Unit {0})
  check_stopped id = do
    found ←
        wrap_error (wrap "failed to get sandbox container info for %q: %v" (id ∷ []))
          (optional (is_containerd_grpc_not_found_error env) (call (task_get id)))
    guard (not (is_some found)) (errorf "sandbox container %q is not fully stopped" (id ∷ []))
    wrap_error (wrap "failed to remove sandbox container snapshot %q: %v" (id ∷ []))
        (unless is_not_found (call (snapshot_remove id)))

  -- what comes after it
  unfoldable pub remove_sandbox_resources : String → Exec (State World) (Unit {0})
  remove_sandbox_resources id = do
    let dir = get_sandbox_root_dir root_dir id
    wrap_error (wrap "failed to remove sandbox root directory %q: %v" (dir ∷ []))
        (call (remove_all dir))
    wrap_error (wrap "failed to delete sandbox container %q: %v" (id ∷ []))
        (unless (is_containerd_grpc_not_found_error env) (call (container_delete id)))

  unfoldable pub remove_found_sandbox : Sandbox → Exec (State World) (Unit {0})
  remove_found_sandbox sb = do
    check_stopped sb.id
    cs ← list_containers_in_store
    remove_members sb.id cs
    remove_sandbox_resources sb.id
    forget_sandbox sb.id

  -- `RemovePodSandbox`
  unfoldable pub remove_pod_sandbox : String → Exec (State World) (Unit {0})
  remove_pod_sandbox pod_sandbox_id s = elim (Sandbox.get pod_sandbox_id s.sandboxes) [
    | ok sb ↦ remove_found_sandbox sb s
    | err not_exist ↦ (ok tt, s)
    | err e ↦
        (err (wrap "an error occurred when try to find sandbox %q: %v" (pod_sandbox_id ∷ []) e), s)
    | panic ↦ (panic, s)
  ]

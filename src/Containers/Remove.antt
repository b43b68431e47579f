-- ===== src/Containers/Remove.antt =====
-- pkg/server/container_remove.go
pub mod Outcome
use cri_containerd.Base.{
  ◌==◌, String, Bool, true, false, none, some, List, [], ◌∷◌, if◌then◌else◌, Result, ok, err, panic,
  Error, errorf, wrap, not_exist,
}
use cri_containerd.Cri.{running, state_eq}
use cri_containerd.Paths.{get_container_root_dir}
use cri_containerd.Registrar.{release_by_key}
use cri_containerd.Store.Status.{Status, state}
use cri_containerd.Store.Container
use cri_containerd.Store.Container.{Container}
use cri_containerd.Exec.{Exec, pure, wrap_error, on_error, unless, modify, ◌>>=◌, ◌>>◌}
use cri_containerd.Service.{State, Env, call}
use cri_containerd.Containers.Common.{
  with_storage, update_status, is_containerd_grpc_not_found_error,
}

-- the update function of `setContainerRemoving`
unfoldable pub set_removing : Status → Result Status
set_removing status =
    if state status == running
    then err (errorf "container is still running" [])
    else if status.removing
    then err (errorf "container is already in removing state" [])
    else ok (record status { removing = true })

-- the update function of `resetContainerRemoving`
unfoldable pub reset_removing : Status → Result Status
reset_removing status = ok (record status { removing = false })

module _ {W : Type 0} where
  unfoldable pub set_container_removing : Container → Exec (State W) (Unit {0})
  set_container_removing c = update_status c set_removing

  unfoldable pub reset_container_removing : Container → Exec (State W) (Unit {0})
  reset_container_removing c = update_status c reset_removing

  -- `Container.Delete`: there is no checkpoint to delete yet.
  unfoldable pub delete_checkpoint : Container → Exec (State W) (Unit {0})
  delete_checkpoint c = with_storage c λ _. pure tt

  -- the last two steps: the container leaves the store and its name is free
  unfoldable pub forget : String → Exec (State W) (Unit {0})
  forget id =
      modify (λ s. record s { containers = Container.delete id s.containers })
      >> modify (λ s. record s { container_names = release_by_key id s.container_names })

module _ (env : Env) where
  open env use {World, root_dir, is_not_found, snapshot_remove, remove_all, container_delete}

  -- `RemoveContainer` between the two updates of the status
  unfoldable pub remove_resources : Container → Exec (State World) (Unit {0})
  unfolding delete_checkpoint
  remove_resources c = do
    let id = c.metadata.id
    let container_root_dir = get_container_root_dir root_dir id
    wrap_error (wrap "failed to remove container snapshot %q: %v" (id ∷ []))
        (unless is_not_found (call (snapshot_remove id)))
    wrap_error (wrap "failed to remove container root directory %q: %v" (container_root_dir ∷ []))
        (call (remove_all container_root_dir))
    wrap_error (wrap "failed to delete container checkpoint for %q: %v" (id ∷ []))
        (delete_checkpoint c)
    wrap_error (wrap "failed to delete containerd container %q: %v" (id ∷ []))
        (unless (is_containerd_grpc_not_found_error env) (call (container_delete id)))

  unfoldable pub remove_found : Container → Exec (State World) (Unit {0})
  unfolding set_container_removing reset_container_removing forget
  remove_found c = do
    wrap_error (wrap "failed to set removing state for container %q: %v" (c.metadata.id ∷ []))
        (set_container_removing c)
    on_error (reset_container_removing c) (remove_resources c >> forget c.metadata.id)

  -- `RemoveContainer`
  unfoldable pub remove_container : String → Exec (State World) (Unit {0})
  unfolding remove_found
  remove_container container_id s = elim (Container.get container_id s.containers) [
    | ok c ↦ remove_found c s
    | err not_exist ↦ (ok tt, s)
    | err e ↦
        (err (wrap "an error occurred when try to find container %q: %v" (container_id ∷ []) e), s)
    | panic ↦ (panic, s)
  ]

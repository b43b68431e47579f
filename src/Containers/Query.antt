-- ===== src/Containers/Query.antt =====
-- pkg/server/container_status.go and container_list.go
pub mod Filter
pub mod Reason
use cri_containerd.Base.{
  ◌==◌, not, ◌&&◌, ◌||◌, string_eq, String, Bool, true, false, Option, none, some, List, [], ◌∷◌,
  if◌then◌else◌, map, Result, ok, err, panic, wrap,
}
use cri_containerd.Base.Keep.{keep}
use cri_containerd.Base.Int.{ℤ, pos, int_eq}
use cri_containerd.Cri.{ContainerState, exited, state_eq, ContainerMetadata, Mount}
use cri_containerd.Map.{Map, lookup}
use cri_containerd.Store.Status.{Status, Message, state}
use cri_containerd.Store.Container.{Container}
use cri_containerd.Exec.{Exec, pure, wrap_error, ◌>>=◌}
use cri_containerd.Service.{State}
use cri_containerd.Containers.Common.{get_container, get_status, list_containers_in_store}

-- `runtime.ContainerStatus`
pub record CriStatus : Type 0 where
  pub id : String
  pub metadata : Option ContainerMetadata
  pub state : ContainerState
  pub created_at : ℤ
  pub started_at : ℤ
  pub finished_at : ℤ
  pub exit_code : ℤ
  pub image : Option String
  pub image_ref : String
  pub reason : String
  pub message : Message
  pub labels : Map String
  pub annotations : Map String
  pub mounts : List Mount

-- the reason that is reported: one is made up for an exited container that has none
unfoldable pub exit_reason : Status → String
exit_reason status =
    if state status == exited && status.reason == ""
    then (if status.exit_code == pos 0 then "Completed" else "Error")
    else status.reason

unfoldable pub to_cri_container_status : Container → Status → CriStatus
to_cri_container_status c status = record {
  id = c.metadata.id;
  metadata = c.metadata.config.metadata;
  state = state status;
  created_at = status.created_at;
  started_at = status.started_at;
  finished_at = status.finished_at;
  exit_code = status.exit_code;
  image = c.metadata.config.image;
  image_ref = c.metadata.image_ref;
  reason = exit_reason status;
  message = status.message;
  labels = c.metadata.config.labels;
  annotations = c.metadata.config.annotations;
  mounts = c.metadata.config.mounts;
}

-- `runtime.Container`
pub record CriContainer : Type 0 where
  pub id : String
  pub pod_sandbox_id : String
  pub metadata : Option ContainerMetadata
  pub image : Option String
  pub image_ref : String
  pub state : ContainerState
  pub created_at : ℤ
  pub labels : Map String
  pub annotations : Map String

unfoldable pub to_cri_container : Container → Status → CriContainer
to_cri_container c status = record {
  id = c.metadata.id;
  pod_sandbox_id = c.metadata.sandbox_id;
  metadata = c.metadata.config.metadata;
  image = c.metadata.config.image;
  image_ref = c.metadata.image_ref;
  state = state status;
  created_at = status.created_at;
  labels = c.metadata.config.labels;
  annotations = c.metadata.config.annotations;
}

-- `runtime.ContainerFilter`; a nil label selector selects all, as an empty one does
pub record ContainerFilter : Type 0 where
  pub id : String
  pub state : Option ContainerState
  pub pod_sandbox_id : String
  pub label_selector : Map String

abbrev label_is : String → Option String → Bool
label_is v none = false
label_is v (some got) = got == v

-- the loop over the label selector
unfoldable pub match_labels : Map String → Map String → Bool
match_labels [] labels = true
match_labels ((k, v) ∷ selector) labels =
    label_is v (lookup k labels) && match_labels selector labels

abbrev state_is : Option ContainerState → ContainerState → Bool
state_is none s = true
state_is (some want) s = want == s

-- the tests that `continue` in the loop of `filterCRIContainers`
unfoldable pub selects : ContainerFilter → CriContainer → Bool
selects f c =
    (f.id == "" || f.id == c.id)
    && (f.pod_sandbox_id == "" || f.pod_sandbox_id == c.pod_sandbox_id)
    && state_is f.state c.state
    && match_labels f.label_selector c.labels

unfoldable pub filter_cri_containers :
    Option ContainerFilter → List CriContainer → List CriContainer
unfolding selects keep
filter_cri_containers none cs = cs
filter_cri_containers (some f) cs = keep (selects f) cs

module _ {W : Type 0} where
  unfoldable pub container_status : String → Exec (State W) CriStatus
  unfolding to_cri_container_status exit_reason
  container_status container_id = do
    c ←
        wrap_error (wrap "an error occurred when try to find container %q: %v" (container_id ∷ []))
          (get_container container_id)
    status ← get_status c
    pure (to_cri_container_status c status)

  -- the loop of `ListContainers` over the store
  unfoldable pub to_cri_containers : List Container → Exec (State W) (List CriContainer)
  unfolding to_cri_container
  to_cri_containers [] = pure []
  to_cri_containers (c ∷ cs) = do
    status ← get_status c
    rest ← to_cri_containers cs
    pure (to_cri_container c status ∷ rest)

  unfoldable pub list_containers : Option ContainerFilter → Exec (State W) (List CriContainer)
  unfolding filter_cri_containers to_cri_containers
  list_containers filter = do
    cs ← list_containers_in_store
    listed ← to_cri_containers cs
    pure (filter_cri_containers filter listed)

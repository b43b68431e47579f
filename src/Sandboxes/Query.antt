-- ===== src/Sandboxes/Query.antt =====
-- pkg/server/sandbox_status.go and sandbox_list.go
pub mod Filter
use cri_containerd.Base.{
  ◌==◌, ◌&&◌, ◌||◌, string_eq, String, Bool, true, false, Option, none, some, List, [], ◌∷◌,
  if◌then◌else◌, map, wrap,
}
use cri_containerd.Base.Keep.{keep}
use cri_containerd.Base.Int.{ℤ}
use cri_containerd.Cri.{
  PodSandboxState, ready, not_ready, sandbox_state_eq, PodSandboxMetadata, NamespaceOption,
  PodSandboxConfig,
}
use cri_containerd.Map.{Map}
use cri_containerd.Store.Sandbox
use cri_containerd.Store.Sandbox.{Sandbox}
use cri_containerd.Exec.{Exec, pure, gets, reads, optional, wrap_error, ◌>>=◌}
use cri_containerd.Service.{State, Env, Task, is_running, call}
use cri_containerd.Containers.Common.{is_containerd_grpc_not_found_error}
use cri_containerd.Containers.Query.{match_labels}

-- `runtime.PodSandbox`
pub record CriSandbox : Type 0 where
  pub id : String
  pub metadata : Option PodSandboxMetadata
  pub state : PodSandboxState
  pub created_at : ℤ
  pub labels : Map String
  pub annotations : Map String

unfoldable pub to_cri_sandbox : Sandbox → PodSandboxState → CriSandbox
to_cri_sandbox meta state = record {
  id = meta.id;
  metadata = meta.config.metadata;
  state = state;
  created_at = meta.created_at;
  labels = meta.config.labels;
  annotations = meta.config.annotations;
}

-- `runtime.PodSandboxFilter`; a nil label selector selects all, as an empty one does
pub record SandboxFilter : Type 0 where
  pub id : String
  pub state : Option PodSandboxState
  pub label_selector : Map String

abbrev state_is : Option PodSandboxState → PodSandboxState → Bool
state_is none s = true
state_is (some want) s = want == s

-- the tests that `continue` in the loop of `filterCRISandboxes`
unfoldable pub selects : SandboxFilter → CriSandbox → Bool
selects f s =
    (f.id == "" || f.id == s.id)
    && state_is f.state s.state
    && match_labels f.label_selector s.labels

unfoldable pub filter_cri_sandboxes : Option SandboxFilter → List CriSandbox → List CriSandbox
unfolding selects keep
filter_cri_sandboxes none ss = ss
filter_cri_sandboxes (some f) ss = keep (selects f) ss

abbrev state_of : Bool → PodSandboxState
state_of true = ready
state_of false = not_ready

-- the loop over the tasks of containerd: the first one with the id of the sandbox decides
unfoldable pub state_in : List Task → String → PodSandboxState
state_in [] id = not_ready
state_in (t ∷ ts) id = if t.id == id then state_of (is_running t.status) else state_in ts id

-- the state of a sandbox by its task, which may be absent
abbrev state_of_task : Option Task → PodSandboxState
state_of_task none = not_ready
state_of_task (some t) = state_of (is_running t.status)

-- `runtime.PodSandboxStatus`
pub record CriSandboxStatus : Type 0 where
  pub id : String
  pub metadata : Option PodSandboxMetadata
  pub state : PodSandboxState
  pub created_at : ℤ
  pub ip : String
  pub options : NamespaceOption
  pub labels : Map String
  pub annotations : Map String

unfoldable pub to_cri_sandbox_status : Sandbox → PodSandboxState → String → CriSandboxStatus
to_cri_sandbox_status meta state ip = record {
  id = meta.id;
  metadata = meta.config.metadata;
  state = state;
  created_at = meta.created_at;
  ip = ip;
  options = meta.config.namespace_options;
  labels = meta.config.labels;
  annotations = meta.config.annotations;
}

-- the getters of the metadata of a configuration, which may be nil
abbrev pub namespace_of : PodSandboxConfig → String
namespace_of config = elim config.metadata [ none ↦ "" | some m ↦ m.namespace ]

abbrev pub name_of : PodSandboxConfig → String
name_of config = elim config.metadata [ none ↦ "" | some m ↦ m.name ]

-- an address that could not be had is empty
abbrev ip_or_empty : Option String → String
ip_or_empty none = ""
ip_or_empty (some ip) = ip

module _ (env : Env) where
  open env use {World, task_get, task_list, network_status}

  unfoldable pub list_pod_sandbox : Option SandboxFilter → Exec (State World) (List CriSandbox)
  unfolding filter_cri_sandboxes state_in to_cri_sandbox
  list_pod_sandbox filter = do
    in_store ← gets λ s. Sandbox.list s.sandboxes
    tasks ← wrap_error (wrap "failed to list sandbox containers: %v" []) (call task_list)
    pure (
        filter_cri_sandboxes filter (map (λ sb. to_cri_sandbox sb (state_in tasks sb.id)) in_store))

  unfoldable pub pod_sandbox_status : String → Exec (State World) CriSandboxStatus
  unfolding to_cri_sandbox_status
  pod_sandbox_status pod_sandbox_id = do
    sandbox ←
        wrap_error (wrap "an error occurred when try to find sandbox %q: %v" (pod_sandbox_id ∷ []))
          (reads λ s. Sandbox.get pod_sandbox_id s.sandboxes)
    info ←
        wrap_error (wrap "failed to get sandbox container info for %q: %v" (sandbox.id ∷ []))
          (optional (is_containerd_grpc_not_found_error env) (call (task_get sandbox.id)))
    ip ←
        optional (λ _. true)
          (call (
            network_status sandbox.net_ns (namespace_of sandbox.config) (name_of sandbox.config)
              sandbox.id))
    pure (to_cri_sandbox_status sandbox (state_of_task info) (ip_or_empty ip))

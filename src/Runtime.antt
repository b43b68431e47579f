-- ===== src/Runtime.antt =====
-- The handlers of the CRI on the runtime itself, pkg/server/status.go, version.go and
-- update_runtime_config.go.
pub mod Conditions
use cri_containerd.Base.{
  ℕ, ◌==◌, nat_eq, not, String, Bool, true, false, List, [], ◌∷◌, Error, Result, ok, err, panic,
  errorf, wrap, if◌then◌else◌,
}
use cri_containerd.Exec.{Exec, pure, wrap_error, ◌>>=◌}
use cri_containerd.Store.Status.{Message, empty, text_of}
use cri_containerd.Service.{State, Env, Reply, value, failure, call, effect}

-- `runtime.RuntimeCondition`
pub record RuntimeCondition : Type 0 where
  pub kind : String
  pub status : Bool
  pub reason : String
  pub message : Message

-- `runtime.VersionResponse`
pub record VersionResponse : Type 0 where
  pub version : String
  pub runtime_name : String
  pub runtime_version : String
  pub runtime_api_version : String

abbrev pub runtime_ready : String
runtime_ready = "RuntimeReady"

abbrev pub network_ready : String
network_ready = "NetworkReady"

abbrev pub runtime_not_ready_reason : String
runtime_not_ready_reason = "ContainerdNotReady"

abbrev pub network_not_ready_reason : String
network_not_ready_reason = "NetworkPluginNotReady"

-- `HealthCheckResponse_SERVING`
abbrev pub serving : ℕ
serving = 1

-- what `Status` makes of the answer of the health service
unfoldable pub runtime_condition : Reply ℕ → RuntimeCondition
runtime_condition (value answer) = record {
  kind = runtime_ready;
  status = answer == serving;
  reason = if answer == serving then "" else runtime_not_ready_reason;
  message =
      if answer == serving
      then empty
      else text_of (errorf "Containerd grpc server is not serving" []);
}
runtime_condition (failure e) = record {
  kind = runtime_ready;
  status = false;
  reason = runtime_not_ready_reason;
  message = text_of (wrap "Containerd healthcheck returns error: %v" [] e);
}

-- what it makes of the answer of the network plugin
unfoldable pub network_condition : Reply (Unit {0}) → RuntimeCondition
network_condition (value _) = record {
  kind = network_ready;
  status = true;
  reason = "";
  message = empty;
}
network_condition (failure e) = record {
  kind = network_ready;
  status = false;
  reason = network_not_ready_reason;
  message = text_of (wrap "Network plugin returns error: %v" [] e);
}

-- `UpdateRuntimeConfig`: whatever is asked for, nothing is done.
unfoldable pub update_runtime_config : {S : Type 0} → String → Exec S (Unit {0})
update_runtime_config pod_cidr = pure tt

module _ (env : Env) where
  open env use {World, health_check, containerd_version, network_plugin_status}

  -- `Status`
  unfoldable pub status : Exec (State World) (List RuntimeCondition)
  status = do
    health ← effect health_check
    network ← effect network_plugin_status
    pure (runtime_condition health ∷ network_condition network ∷ [])

  -- `Version`
  unfoldable pub version : Exec (State World) VersionResponse
  version = do
    containerd ←
        wrap_error (wrap "failed to get containerd version: %v" []) (call containerd_version)
    pure (record {
      version = "0.1.0";
      runtime_name = "containerd";
      runtime_version = containerd;
      runtime_api_version = "0.0.0";
    })

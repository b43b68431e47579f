-- ===== src/Daemon/Init.antt =====
-- `NewCRIContainerdService` of pkg/server/service.go, with `newStreamServer` of streaming.go.
use cri_containerd.Base.{ℕ, ◌==◌, string_eq, String, false, [], ◌∷◌, wrap, if◌then◌else◌}
use cri_containerd.Base.Int.{pos}
use cri_containerd.Registrar.{new_registrar}
use cri_containerd.Store.Status.{Status, empty}
use cri_containerd.Store.Container
use cri_containerd.Store.Sandbox
use cri_containerd.Store.Image
use cri_containerd.Exec.{Exec, pure, wrap_error, ◌>>=◌}
use cri_containerd.Service.{State}
use cri_containerd.Streaming.{join_host_port}
use cri_containerd.Daemon.Host.{Host, ask}

-- the fields of `criContainerdService` that nothing writes after its construction
pub record Service : Type 0 where
  pub root_dir : String
  pub sandbox_image : String
  pub client : ℕ
  pub net_plugin : ℕ
  pub stream_server : ℕ

abbrev pub zero_status : Status
zero_status = record {
  pid = 0;
  created_at = pos 0;
  started_at = pos 0;
  finished_at = pos 0;
  exit_code = pos 0;
  reason = "";
  message = empty;
  removing = false;
}

-- the stores and the registrars of a new service, which are empty
abbrev pub new_state : {W : Type 0} → W → State W
new_state w = record {
  world = w;
  heap = record { next = 0; cell = λ a. zero_status };
  containers = Container.new_store;
  container_names = new_registrar;
  sandboxes = Sandbox.new_store;
  sandbox_names = new_registrar;
  images = Image.new_store;
}

abbrev pub k8s_containerd_namespace : String
k8s_containerd_namespace = "k8s.io"

abbrev pub default_sandbox_image : String
default_sandbox_image = "gcr.io/google_containers/pause:3.0"

module _ {W : Type 0} (host : Host W) where
  open host use {connect, init_cni, choose_bind_address, new_server}

  bind_address : String → Exec W String
  bind_address address =
      if address == ""
      then wrap_error (wrap "failed to get stream server address: %v" []) (ask choose_bind_address)
      else pure address

  -- `newStreamServer`
  unfoldable pub new_stream_server : String → String → Exec W ℕ
  unfolding bind_address
  new_stream_server address port = do
    host_address ← bind_address address
    ask (new_server (join_host_port host_address port))

  -- `NewCRIContainerdService`
  unfoldable pub new_cri_containerd_service :
      String → String → String → String → String → String → Exec W Service
  unfolding new_stream_server
  new_cri_containerd_service endpoint root_dir bin_dir conf_dir stream_address stream_port = do
    client ←
        wrap_error
          (wrap "failed to initialize containerd client with endpoint %q: %v" (endpoint ∷ []))
          (ask (connect endpoint k8s_containerd_namespace))
    plugin ←
        wrap_error (wrap "failed to initialize cni plugin: %v" []) (ask (init_cni bin_dir conf_dir))
    server ←
        wrap_error (wrap "failed to create stream server: %v" [])
          (new_stream_server stream_address stream_port)
    pure (record {
      root_dir = root_dir;
      sandbox_image = default_sandbox_image;
      client = client;
      net_plugin = plugin;
      stream_server = server;
    })

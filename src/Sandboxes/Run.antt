-- ===== src/Sandboxes/Run.antt =====
-- pkg/server/sandbox_run.go: `RunPodSandbox`, one definition for each stretch between two deferred
-- cleanups.
pub mod Added
pub mod Outcome
use cri_containerd.Base.{
  ◌==◌, not, string_eq, ℕ, String, Bool, true, false, Option, none, some, List, [], ◌∷◌,
  if◌then◌else◌, Result, ok, err, panic, Error, wrap,
}
use cri_containerd.Base.Int.{ℤ, pos}
use cri_containerd.Cri.{PodSandboxConfig}
use cri_containerd.Names.{make_sandbox_name}
use cri_containerd.Paths.{get_sandbox_root_dir, get_streaming_pipes}
use cri_containerd.Registrar.{reserve, release_by_name}
use cri_containerd.Store.Image.{Image}
use cri_containerd.Store.Sandbox
use cri_containerd.Store.Sandbox.{Sandbox}
use cri_containerd.Exec.{Exec, pure, fault_panic, lift, modify, wrap_error, on_error, ◌>>=◌, ◌>>◌}
use cri_containerd.Service.{State, Env, RootMount, Generator, call, effect, outcome}
use cri_containerd.Containers.Common.{ignore}
use cri_containerd.Containers.Start.{Pipes, prepare_streaming_pipes, close_output}
use cri_containerd.Images.Pull.{ensure_image_exists}
use cri_containerd.Spec.Common.{get_network_namespace}
use cri_containerd.Spec.Sandbox.{generate_sandbox_container_spec}
use cri_containerd.Sandboxes.Query.{namespace_of, name_of}
use cri_containerd.Sandboxes.Files.{setup_sandbox_files, unmount_sandbox_files}
use cri_containerd.Sandboxes.Stop.{stop_sandbox_container}

-- a nil error is an action that has succeeded
abbrev pub result_of : Option Error → Result (Unit {0})
result_of none = ok tt
result_of (some e) = err e

module _ {W : Type 0} where
  -- `makeSandboxName`, which reads the fields of a nil metadata
  unfoldable pub sandbox_name : PodSandboxConfig → Exec (State W) String
  sandbox_name config = elim config.metadata [
    | none ↦ fault_panic
    | some m ↦ pure (make_sandbox_name m)
  ]

  -- `c.sandboxNameIndex.Reserve`
  unfoldable pub reserve_sandbox_name : String → String → Exec (State W) (Unit {0})
  reserve_sandbox_name name id s =
      let (names, e) = reserve name id s.sandbox_names in
      (result_of e, record s { sandbox_names = names })

  unfoldable pub release_sandbox_name : String → Exec (State W) (Unit {0})
  release_sandbox_name name =
      modify λ s. record s { sandbox_names = release_by_name name s.sandbox_names }

  -- `c.sandboxStore.Add`
  unfoldable pub add_sandbox : Sandbox → Exec (State W) (Unit {0})
  add_sandbox sb s =
      let (e, store) = Sandbox.add sb s.sandboxes in (result_of e, record s { sandboxes = store })

  -- the end of `RunPodSandbox`
  unfoldable pub record_sandbox : Sandbox → Exec (State W) String
  unfolding add_sandbox
  record_sandbox sb = do
    wrap_error (wrap "failed to add sandbox %+v into store: %v" []) (add_sandbox sb)
    pure sb.id

  -- `sandboxLogger.Start` copies the output away in a goroutine, and does not fail.
  unfoldable pub sandbox_logger_start : Exec (State W) (Unit {0})
  sandbox_logger_start = pure tt

module _ (env : Env) where
  open env use {
    World, root_dir, sandbox_image, generator, generate_id, now, snapshot_view, snapshot_remove,
    container_create, container_delete, mkdir_all, remove_all, task_create, task_start, set_up_pod,
    tear_down_pod,
  }

  -- the start of the task, and the sandbox in the store
  unfoldable pub start_and_add : Sandbox → Exec (State World) String
  start_and_add sb = do
    wrap_error (wrap "failed to start sandbox container %q: %v" (sb.id ∷ []))
        (call (task_start sb.id))
    at ← effect now
    record_sandbox (record sb { created_at = at })

  -- from the network on
  unfoldable pub set_up_network : Sandbox → Exec (State World) String
  set_up_network sb = do
    wrap_error (wrap "failed to setup network for sandbox %q: %v" (sb.id ∷ []))
        (call (set_up_pod sb.net_ns (namespace_of sb.config) (name_of sb.config) sb.id))
    on_error
        (ignore (call (tear_down_pod sb.net_ns (namespace_of sb.config) (name_of sb.config) sb.id)))
        (start_and_add sb)

  -- a sandbox on the network of the host has none of its own
  unfoldable pub connect_sandbox : Sandbox → Exec (State World) String
  connect_sandbox sb =
      if not sb.config.namespace_options.host_network then set_up_network sb else start_and_add sb

  abbrev pub new_sandbox : String → String → PodSandboxConfig → ℕ → Sandbox
  new_sandbox id name config pid = record {
    id = id;
    name = name;
    config = config;
    created_at = pos 0;
    pid = pid;
    net_ns = get_network_namespace pid;
  }

  -- from the task on
  unfoldable pub run_task :
      String
      → String
      → PodSandboxConfig
      → List RootMount
      → String
      → String
      → Exec (State World) String
  run_task id name config rootfs stdout stderr = do
    pid ← wrap_error (wrap "failed to create sandbox container %q: %v" (id ∷ [])) (
        call (
          task_create (record {
            container_id = id;
            rootfs = rootfs;
            stdin = "";
            stdout = stdout;
            stderr = stderr;
            terminal = false;
          })))
    on_error (ignore (stop_sandbox_container env id))
        (connect_sandbox (new_sandbox id name config pid))

  -- from the files on, once there are pipes
  unfoldable pub set_up_files :
      String → String → PodSandboxConfig → List RootMount → String → Exec (State World) String
  set_up_files id name config rootfs dir = do
    sandbox_logger_start
    sandbox_logger_start
    wrap_error (wrap "failed to setup sandbox files: %v" []) (setup_sandbox_files env dir config)
    on_error (ignore (unmount_sandbox_files env dir config))
        (run_task id name config rootfs (get_streaming_pipes dir).1 (get_streaming_pipes dir).2)

  -- the pipes are there: neither of their paths is empty
  unfoldable pub close_outputs : Pipes → Exec (State World) (Unit {0})
  close_outputs pipes = do close_output env pipes.stdout; close_output env pipes.stderr

  -- from the pipes on, in the root directory
  unfoldable pub open_pipes :
      String → String → PodSandboxConfig → List RootMount → String → Exec (State World) String
  open_pipes id name config rootfs dir = do
    pipes ←
        wrap_error (wrap "failed to prepare streaming pipes: %v" [])
          (prepare_streaming_pipes env "" (get_streaming_pipes dir).1 (get_streaming_pipes dir).2)
    on_error (close_outputs pipes) (set_up_files id name config rootfs dir)

  -- from the root directory on
  unfoldable pub make_root :
      String → String → PodSandboxConfig → List RootMount → Exec (State World) String
  make_root id name config rootfs = do
    let dir = get_sandbox_root_dir root_dir id
    wrap_error (wrap "failed to create sandbox root directory %q: %v" (dir ∷ []))
        (call (mkdir_all dir 0o755))
    on_error (ignore (call (remove_all dir))) (open_pipes id name config rootfs dir)

  -- from the containerd container on
  unfoldable pub create_sandbox_container :
      String → String → PodSandboxConfig → Image → List RootMount → Exec (State World) String
  create_sandbox_container id name config image rootfs = do
    spec ←
        wrap_error (wrap "failed to generate sandbox container spec: %v" [])
          (lift (generate_sandbox_container_spec generator id config image.config))
    raw ←
        wrap_error (wrap "failed to marshal oci spec %+v: %v" [])
          (lift (outcome (generator.marshal spec)))
    wrap_error (wrap "failed to create containerd container: %v" [])
        (call (container_create id image.id raw))
    on_error (ignore (call (container_delete id))) (make_root id name config rootfs)

  -- from the image on
  unfoldable pub run_reserved : String → String → PodSandboxConfig → Exec (State World) String
  run_reserved id name config = do
    image ←
        wrap_error
          (wrap "failed to get sandbox image %q: %v" ("gcr.io/google_containers/pause:3.0" ∷ []))
          (ensure_image_exists env sandbox_image)
    rootfs ←
        wrap_error (wrap "failed to prepare sandbox rootfs %q: %v" (image.chain_id ∷ []))
          (call (snapshot_view id image.chain_id))
    on_error (ignore (call (snapshot_remove id)))
        (create_sandbox_container id name config image rootfs)

  -- once there is an id and a name
  unfoldable pub run_named : PodSandboxConfig → String → String → Exec (State World) String
  run_named config id name = do
    wrap_error (wrap "failed to reserve sandbox name %q: %v" (name ∷ []))
        (reserve_sandbox_name name id)
    on_error (release_sandbox_name name) (run_reserved id name config)

  -- `RunPodSandbox`
  unfoldable pub run_pod_sandbox : PodSandboxConfig → Exec (State World) String
  run_pod_sandbox config = do
    id ← effect generate_id
    name ← sandbox_name config
    run_named config id name

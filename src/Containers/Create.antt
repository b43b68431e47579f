-- ===== src/Containers/Create.antt =====
-- pkg/server/container_create.go: `CreateContainer`, one definition for each stretch between two
-- deferred cleanups.
pub mod Added
pub mod Outcome
use cri_containerd.Base.{
  ◌==◌, not, string_eq, ℕ, String, Bool, true, false, Option, none, some, List, [], ◌∷◌,
  if◌then◌else◌, Result, ok, err, panic, Error, errorf, wrap,
}
use cri_containerd.Base.Int.{ℤ, pos}
use cri_containerd.Cri.{ContainerConfig, PodSandboxConfig}
use cri_containerd.Names.{make_container_name}
use cri_containerd.Paths.{get_sandbox_root_dir, get_container_root_dir}
use cri_containerd.Registrar.{reserve, release_by_name}
use cri_containerd.Store.Status.{Status, empty}
use cri_containerd.Store.Heap
use cri_containerd.Store.Image.{Image}
use cri_containerd.Store.Container
use cri_containerd.Store.Container.{Container, Metadata}
use cri_containerd.Store.Sandbox
use cri_containerd.Store.Sandbox.{Sandbox}
use cri_containerd.Exec.{
  Exec, pure, raise, fault_panic, lift, modify, reads, wrap_error, on_error, ◌>>=◌, ◌>>◌,
}
use cri_containerd.Service.{State, Env, Generator, call, effect, outcome}
use cri_containerd.Containers.Common.{ignore}
use cri_containerd.Containers.Remove.{delete_checkpoint}
use cri_containerd.Images.Resolve.{local_resolve}
use cri_containerd.Spec.Container.{generate_container_mounts, generate_container_spec}

abbrev pub result_of : Option Error → Result (Unit {0})
result_of none = ok tt
result_of (some e) = err e

-- the image that was resolved, if any
unfoldable pub found_image : {S : Type 0} → String → Option Image → Exec S Image
found_image image_ref none = raise (errorf "image %q not found" (image_ref ∷ []))
found_image image_ref (some image) = pure image

-- `Status{CreatedAt: time.Now().UnixNano()}`
abbrev pub created_at : ℤ → Status
created_at at = record {
  pid = 0;
  created_at = at;
  started_at = pos 0;
  finished_at = pos 0;
  exit_code = pos 0;
  reason = "";
  message = empty;
  removing = false;
}

module _ {W : Type 0} where
  -- `makeContainerName`, which reads the fields of a nil metadata
  unfoldable pub container_name : ContainerConfig → PodSandboxConfig → Exec (State W) String
  container_name config sandbox_config = elim config.metadata [
    | none ↦ fault_panic
    | some c ↦ elim sandbox_config.metadata [
      | none ↦ fault_panic
      | some s ↦ pure (make_container_name c s)
    ]
  ]

  -- `c.containerNameIndex.Reserve`
  unfoldable pub reserve_container_name : String → String → Exec (State W) (Unit {0})
  reserve_container_name name id s =
      let (names, e) = reserve name id s.container_names in
      (result_of e, record s { container_names = names })

  unfoldable pub release_container_name : String → Exec (State W) (Unit {0})
  release_container_name name =
      modify λ s. record s { container_names = release_by_name name s.container_names }

  -- `NewContainer`
  unfoldable pub new_container : Metadata → Status → Exec (State W) Container
  new_container metadata status s =
      let (a, h) = Heap.store_status status s.heap in
      (ok (record { metadata = metadata; status = some a }), record s { heap = h })

  -- `c.containerStore.Add`
  unfoldable pub add_container : Container → Exec (State W) (Unit {0})
  add_container c s =
      let (e, store) = Container.add c s.containers in
      (result_of e, record s { containers = store })

  -- the end of `CreateContainer`
  unfoldable pub record_container : Metadata → ℤ → Exec (State W) String
  unfolding new_container add_container
  record_container meta at = do
    c ← new_container meta (created_at at)
    on_error (ignore (delete_checkpoint c)) do
      wrap_error (wrap "failed to add container %q into store: %v" (meta.id ∷ [])) (add_container c)
      pure meta.id

module _ (env : Env) where
  open env use {
    World, root_dir, generator, generate_id, now, snapshot_view, snapshot_prepare, snapshot_remove,
    container_create, container_delete, mkdir_all, remove_all,
  }

  -- the container with its status, in the store
  unfoldable pub store_container : Metadata → Exec (State World) String
  store_container meta = do at ← effect now; record_container meta at

  -- from the containerd container on
  unfoldable pub create_in_containerd : Metadata → String → Exec (State World) String
  create_in_containerd meta raw = do
    wrap_error (wrap "failed to create containerd container: %v" [])
        (call (container_create meta.id meta.image_ref raw))
    on_error (ignore (call (container_delete meta.id))) (store_container meta)

  -- from the root directory on
  unfoldable pub make_container_root : Metadata → String → Exec (State World) String
  make_container_root meta raw = do
    let dir = get_container_root_dir root_dir meta.id
    wrap_error (wrap "failed to create container root directory %q: %v" (dir ∷ []))
        (call (mkdir_all dir 0o755))
    on_error (ignore (call (remove_all dir))) (create_in_containerd meta raw)

  -- the snapshot of the image, read-only if the root file system is
  unfoldable pub snapshot_rootfs : ContainerConfig → String → String → Exec (State World) (Unit {0})
  snapshot_rootfs config id chain_id =
      if config.security_context.readonly_rootfs
      then wrap_error (wrap "failed to view container rootfs %q: %v" (chain_id ∷ []))
          (call (snapshot_view id chain_id))
        >> pure tt
      else wrap_error (wrap "failed to prepare container rootfs %q: %v" (chain_id ∷ []))
          (call (snapshot_prepare id chain_id))
        >> pure tt

  abbrev image_of : ContainerConfig → String
  image_of config = elim config.image [ none ↦ "" | some image ↦ image ]

  -- from the image on
  unfoldable pub create_reserved :
      Sandbox → ContainerConfig → PodSandboxConfig → String → String → Exec (State World) String
  create_reserved sandbox config sandbox_config id name = do
    let image_ref = image_of config
    resolved ←
        wrap_error (wrap "failed to resolve image %q: %v" (image_ref ∷ []))
          (local_resolve env image_ref)
    image ← found_image image_ref resolved
    let mounts = generate_container_mounts (get_sandbox_root_dir root_dir sandbox.id) config
    spec ← wrap_error (wrap "failed to generate container %q spec: %v" (id ∷ [])) (
        lift (
          generate_container_spec generator id sandbox.pid config sandbox_config image.config
            mounts))
    raw ←
        wrap_error (wrap "failed to marshal oci spec %+v: %v" [])
          (lift (outcome (generator.marshal spec)))
    snapshot_rootfs config id image.chain_id
    on_error (ignore (call (snapshot_remove id))) (
        make_container_root
          (record {
            id = id;
            name = name;
            sandbox_id = sandbox.id;
            config = config;
            image_ref = image.id;
          })
          raw)

  -- once there is an id and a name
  unfoldable pub create_named :
      Sandbox → ContainerConfig → PodSandboxConfig → String → String → Exec (State World) String
  create_named sandbox config sandbox_config id name = do
    wrap_error (wrap "failed to reserve container name %q: %v" (name ∷ []))
        (reserve_container_name name id)
    on_error (release_container_name name) (create_reserved sandbox config sandbox_config id name)

  -- `CreateContainer`
  unfoldable pub create_container :
      String → ContainerConfig → PodSandboxConfig → Exec (State World) String
  create_container pod_sandbox_id config sandbox_config = do
    sandbox ←
        wrap_error (wrap "failed to find sandbox id %q: %v" (pod_sandbox_id ∷ []))
          (reads λ s. Sandbox.get pod_sandbox_id s.sandboxes)
    id ← effect generate_id
    name ← container_name config sandbox_config
    create_named sandbox config sandbox_config id name

-- ===== src/Sandboxes/Run/Added.antt =====
-- `RunPodSandbox` of pkg/server/sandbox_run.go once its name is reserved.
use cri_containerd.Base.{
  true, string_eq, ℕ, String, ◌≡◌, refl, Option, none, List, arith, inl, inr, Option-cases,
}
use cri_containerd.Base.Int.{ℤ}
use cri_containerd.Cri.{PodSandboxConfig}
use cri_containerd.Paths.{get_streaming_pipes}
use cri_containerd.Map.{lookup, insert}
use cri_containerd.Store.Image.{Image}
use cri_containerd.Store.Sandbox
use cri_containerd.Store.Sandbox.{Sandbox}
use cri_containerd.Exec.Keeps.{Keeps, Keeps-pure, Keeps-wrap, Keeps-unless, keeps_rules}
use cri_containerd.Exec.Commits.{
  Commits, Committed, Commits-if, Commits-then, Commits-on_error, commits_rules,
}
use cri_containerd.Service.{State, Env, RootMount}
use cri_containerd.Service.Frame.{ImagesOnly, images_rules, Outside-ImagesOnly}
use cri_containerd.Containers.Common.{ignore}
use cri_containerd.Containers.Start.{Pipes, prepare_streaming_pipes, close_output}
use cri_containerd.Containers.Start.Outcome.{prepare_streaming_pipes-Outside, close_output-Outside}
use cri_containerd.Images.Pull.{ensure_image_exists}
use cri_containerd.Images.Pull.Outcome.{ensure_image_exists-ImagesOnly}
use cri_containerd.Sandboxes.Files.{setup_sandbox_files, unmount_sandbox_files}
use cri_containerd.Sandboxes.Files.Frame.{
  setup_sandbox_files-Outside, unmount_sandbox_files-Outside,
}
use cri_containerd.Sandboxes.Stop.{stop_sandbox_container}
use cri_containerd.Sandboxes.Stop.Frame.{stop_sandbox_container-Outside}
use cri_containerd.Sandboxes.Run.{
  record_sandbox, start_and_add, set_up_network, connect_sandbox, new_sandbox, run_task,
  set_up_files, close_outputs, open_pipes, make_root, create_sandbox_container, run_reserved,
  sandbox_logger_start,
}

-- The state `s` is `s0` with the sandbox added, but for the world and the images: it has the given
-- id, name and configuration, and no sandbox had this id before.
abbrev pub SandboxAdded :
    {W : Type 0} → State W → String → String → PodSandboxConfig → State W → Type 0
SandboxAdded s0 id name config s =
    (sb : Sandbox) × (sb.id ≡ id)
    × (sb.name ≡ name)
    × (sb.config ≡ config)
    × (lookup id s0.sandboxes ≡ none)
    × (s ≡ record s0 { world = s.world; images = s.images; sandboxes = insert id sb s0.sandboxes })

module _ (env : Env) (s0 : State env.World) (id name : String) (config : PodSandboxConfig) where
  -- the value returned is the id
  abbrev pub Added : String → State env.World → Type 0
  Added r s = (r ≡ id) × SandboxAdded s0 id name config s

  abbrev IsOurs : Sandbox → Type 0
  IsOurs sb = (sb.id ≡ id) × (sb.name ≡ name) × (sb.config ≡ config)

  record_sandbox-Commits :
      (sb : Sandbox) → IsOurs sb → Commits (ImagesOnly s0) Added (record_sandbox sb)
  unfolding record_sandbox Sandbox.add
  record_sandbox-Commits sb ours = record {
    at = λ s h. elim (Option-cases (lookup sb.id s.sandboxes)) [
      | inl free ↦
          rw (free, Committed, record_sandbox)
            (
              ours.0,
              (sb, ours.0, ours.1, ours.2, ground (arith, h, free, ours), ground (arith, h, ours)),
            )
      | inr (old, taken) ↦ rw (taken, Committed, record_sandbox) (ground (arith, h))
    ];
  }

  start_and_add-Commits :
      (sb : Sandbox) → IsOurs sb → Commits (ImagesOnly s0) Added (start_and_add env sb)
  unfolding start_and_add
  start_and_add-Commits sb ours =
      let recorded : (at : ℤ)
          → Commits (ImagesOnly s0) Added (record_sandbox (record sb { created_at = at })) =
        λ at. record_sandbox-Commits (record sb { created_at = at }) ours in
      search (commits_rules, images_rules, recorded) depth 10

  set_up_network-Commits :
      (sb : Sandbox) → IsOurs sb → Commits (ImagesOnly s0) Added (set_up_network env sb)
  unfolding set_up_network
  set_up_network-Commits sb ours =
      let started : Commits (ImagesOnly s0) Added (start_and_add env sb) =
        start_and_add-Commits sb ours in
      search (commits_rules, images_rules, started) depth 10

  connect_sandbox-Commits :
      (sb : Sandbox) → IsOurs sb → Commits (ImagesOnly s0) Added (connect_sandbox env sb)
  unfolding connect_sandbox
  connect_sandbox-Commits sb ours =
      Commits-if _ _ _ (set_up_network-Commits sb ours) (start_and_add-Commits sb ours)

  stop-ImagesOnly : Keeps (ImagesOnly s0) (stop_sandbox_container env id)
  stop-ImagesOnly = Outside-ImagesOnly s0 _ (λ s. stop_sandbox_container-Outside env s id)

  run_task-Commits :
      (rootfs : List RootMount) (stdout stderr : String)
      → Commits (ImagesOnly s0) Added (run_task env id name config rootfs stdout stderr)
  unfolding run_task
  run_task-Commits rootfs stdout stderr =
      let connected : (pid : ℕ)
          → Commits (ImagesOnly s0) Added
              (connect_sandbox env (new_sandbox env id name config pid)) =
        λ pid. connect_sandbox-Commits (new_sandbox env id name config pid) (refl, refl, refl) in
      search (commits_rules, images_rules, connected, stop-ImagesOnly) depth 10

  sandbox_logger_start-ImagesOnly : Keeps (ImagesOnly s0) sandbox_logger_start
  unfolding sandbox_logger_start
  sandbox_logger_start-ImagesOnly = Keeps-pure tt

  set_up_files-Commits :
      (rootfs : List RootMount) (dir : String)
      → Commits (ImagesOnly s0) Added (set_up_files env id name config rootfs dir)
  unfolding set_up_files
  set_up_files-Commits rootfs dir =
      let files : Keeps (ImagesOnly s0) (setup_sandbox_files env dir config) =
        Outside-ImagesOnly s0 _ (λ s. setup_sandbox_files-Outside env s dir config) in
      let unmounted : Keeps (ImagesOnly s0) (unmount_sandbox_files env dir config) =
        Outside-ImagesOnly s0 _ (λ s. unmount_sandbox_files-Outside env s dir config) in
      Commits-then _ _ sandbox_logger_start-ImagesOnly (
        Commits-then _ _ sandbox_logger_start-ImagesOnly (
          Commits-then _ _ (Keeps-wrap _ _ files) (
            Commits-on_error (ignore (unmount_sandbox_files env dir config)) _
              (Keeps-unless (λ _. true) _ unmounted)
              (run_task-Commits rootfs (get_streaming_pipes dir).1 (get_streaming_pipes dir).2))))

  close_outputs-ImagesOnly : (p : Pipes) → Keeps (ImagesOnly s0) (close_outputs env p)
  unfolding close_outputs
  close_outputs-ImagesOnly p =
      let closed : (o : Option ℕ) → Keeps (ImagesOnly s0) (close_output env o) =
        λ o. Outside-ImagesOnly s0 _ (λ s. close_output-Outside env s o) in
      search (keeps_rules, closed)

  open_pipes-Commits :
      (rootfs : List RootMount) (dir : String)
      → Commits (ImagesOnly s0) Added (open_pipes env id name config rootfs dir)
  unfolding open_pipes
  open_pipes-Commits rootfs dir =
      let prepared : (i o e : String) → Keeps (ImagesOnly s0) (prepare_streaming_pipes env i o e) =
        λ i o e. Outside-ImagesOnly s0 _ (λ s. prepare_streaming_pipes-Outside env s i o e) in
      search (commits_rules, images_rules, prepared, close_outputs-ImagesOnly, set_up_files-Commits)
        depth 12

  make_root-Commits :
      (rootfs : List RootMount)
      → Commits (ImagesOnly s0) Added (make_root env id name config rootfs)
  unfolding make_root
  make_root-Commits rootfs = search (commits_rules, images_rules, open_pipes-Commits) depth 12

  create_sandbox_container-Commits :
      (image : Image) (rootfs : List RootMount)
      → Commits (ImagesOnly s0) Added (create_sandbox_container env id name config image rootfs)
  unfolding create_sandbox_container
  create_sandbox_container-Commits image rootfs =
      search (commits_rules, images_rules, make_root-Commits) depth 14

  pub run_reserved-Commits : Commits (ImagesOnly s0) Added (run_reserved env id name config)
  unfolding run_reserved
  run_reserved-Commits =
      let ensured : (ref : String) → Keeps (ImagesOnly s0) (ensure_image_exists env ref) =
        λ ref. ensure_image_exists-ImagesOnly env s0 ref in
      search (commits_rules, images_rules, ensured, create_sandbox_container-Commits) depth 14

-- ===== src/Tests/Consistency.antt =====
-- A run of the service: a sandbox and a container in it are made, the container is started, exits
-- while it is stopped, and both are removed.
use mathlib.Core.Path.{subst}
use mathlib.Core.List.{Memᴰ}
use cri_containerd.Base.{ap, ℕ, ◌+◌, String, ◌≡◌, inl, inr, refl, some, [], ◌∷◌, ok, arith}
use cri_containerd.Base.Text.{join}
use cri_containerd.Base.Decimal.{show_decimal}
use cri_containerd.Base.Int.{ℤ, pos}
use cri_containerd.Base.Keep.{head_or_tail}
use cri_containerd.Cri.{zero_config, zero_sandbox_config, ContainerConfig, PodSandboxConfig}
use cri_containerd.Map.{lookup, insert}
use cri_containerd.Names.{make_sandbox_name, make_container_name}
use cri_containerd.Paths.{
  get_streaming_pipes, path_join, get_sandbox_root_dir, get_container_root_dir,
}
use cri_containerd.Registrar.{reserve}
use cri_containerd.Service.{State, Env, timed_out}
use cri_containerd.Spec.Common.{namespace_path}
use cri_containerd.Spec.Container.{generate_container_spec, generate_container_mounts}
use cri_containerd.Spec.Devices.{add_oci_devices, set_oci_linux_resource, set_oci_capabilities}
use cri_containerd.Spec.Sandbox.{generate_sandbox_container_spec}
use cri_containerd.Store.Container
use cri_containerd.Store.Image
use cri_containerd.Store.Sandbox
use cri_containerd.Images.Resolve.{local_resolve, normalize_image_ref, get_image_info}
use cri_containerd.Images.Pull.{
  ensure_image_exists, pull_missing, pull_image, fetch_image, wait_loop, record_image,
}
use cri_containerd.Sandboxes.Files.{setup_sandbox_files}
use cri_containerd.Sandboxes.Remove.{remove_pod_sandbox}
use cri_containerd.Containers.Create.{
  create_container, container_name, create_named, reserve_container_name, create_reserved,
  found_image, snapshot_rootfs, make_container_root, create_in_containerd, store_container,
  record_container, new_container, add_container,
}
use cri_containerd.Containers.Events.{task_exit, handle_event}
use cri_containerd.Containers.Remove.{remove_container}
use cri_containerd.Containers.Start.{
  start_container, prepare_streaming_pipes, close_output, open_pipe, close_pipe,
}
use cri_containerd.Containers.Stop.{stop_container}
use cri_containerd.Sandboxes.Run.{
  run_pod_sandbox, run_named, run_reserved, record_sandbox, sandbox_logger_start, start_and_add,
  set_up_network, connect_sandbox, run_task, set_up_files, close_outputs, open_pipes, make_root,
  create_sandbox_container, sandbox_name, reserve_sandbox_name, add_sandbox, release_sandbox_name,
}
use cri_containerd.Daemon.Init.{new_state}
use cri_containerd.Consistency.Invariant.{IsConsistent}
use cri_containerd.Consistency.Reach.{
  Reach, stay, run, create, start, stop, remove, remove_sandbox, event, Reach-IsConsistent,
}
use cri_containerd.Tests.Toy.{toy, image_config, exit_of, done}

abbrev pod_config : PodSandboxConfig
pod_config = record zero_sandbox_config {
  metadata = some (record { name = "pod"; uid = "uid"; namespace = "space"; attempt = 0 });
}

abbrev web_config : ContainerConfig
web_config = record zero_config {
  metadata = some (record { name = "web"; attempt = 0 });
  image = some "app";
}

-- the exit of the container, which another goroutine handles
abbrev exit_tick : State ℕ → State ℕ
exit_tick s = (handle_event toy (task_exit (exit_of "id" "id" 42)) s).1

-- the image that containerd pulls has an entry point, and a container exits while it is stopped
abbrev live : Env
live = record toy {
  decode_image_config = λ r. done (record image_config { entrypoint = "pause" ∷ [] });
  waits = λ id timeout n. (record { ticks = exit_tick ∷ []; last = timed_out }, n + 1);
}

-- the service with the sandbox
abbrev with_pod : State ℕ
with_pod = record (new_state 36) {
  sandboxes =
      (
        "id",
        record {
          id = "id";
          name = "pod_space_uid_0";
          config = pod_config;
          created_at = pos 1035;
          pid = 42;
          net_ns = "/proc/42/ns/net";
        },
      )
      ∷ [];
  sandbox_names = record {
    name_to_key = ("pod_space_uid_0", "id") ∷ [];
    key_to_name = ("id", "pod_space_uid_0") ∷ [];
  };
  images =
      (
        "i1",
        record {
          id = "i1";
          repo_tags = "pause:latest" ∷ [];
          repo_digests = "pause@m1" ∷ [];
          chain_id = "chain";
          size = pos 10;
          config = record image_config { entrypoint = "pause" ∷ [] };
        },
      )
      ∷ [];
}

ran : run_pod_sandbox live pod_config (new_state 0) ≡ (ok "id", with_pod)
unfolding run_pod_sandbox run_named run_reserved record_sandbox sandbox_logger_start start_and_add
    set_up_network connect_sandbox run_task set_up_files close_outputs open_pipes make_root
    create_sandbox_container sandbox_name reserve_sandbox_name add_sandbox reserve lookup
    ensure_image_exists pull_missing local_resolve normalize_image_ref setup_sandbox_files
    Sandbox.add make_sandbox_name join show_decimal Image.get pull_image fetch_image wait_loop
    record_image get_image_info prepare_streaming_pipes close_output open_pipe close_pipe Image.add
    insert generate_sandbox_container_spec release_sandbox_name get_streaming_pipes path_join
    get_sandbox_root_dir namespace_path
ran = refl

made : (create_container live "id" web_config pod_config with_pod).0 ≡ ok "id"
unfolding create_container container_name create_named reserve_container_name create_reserved
    found_image snapshot_rootfs make_container_root create_in_containerd store_container
    record_container new_container add_container make_container_name get_container_root_dir
    Sandbox.get Image.get reserve lookup join show_decimal local_resolve normalize_image_ref
    generate_container_spec generate_container_mounts add_oci_devices set_oci_linux_resource
    set_oci_capabilities path_join insert get_sandbox_root_dir Container.add
made = refl

pod_reached : Reach live (new_state 0) with_pod
unfolding lookup
pod_reached =
    subst (Reach live (new_state 0)) (ap (λ o. o.1) ran)
      (run pod_config refl (λ e. absurd (ground (arith, e, ran))) stay)

web_reached : Reach live (new_state 0) (create_container live "id" web_config pod_config with_pod).1
unfolding lookup
web_reached =
    create "id" web_config pod_config refl (λ e. absurd (ground (arith, e, made))) pod_reached

-- what happens while a stop waits
exit_reached :
    (i : String) (n : ℤ) (w : ℕ) (tick : State ℕ → State ℕ)
    → Memᴰ tick (live.waits i n w).0.ticks
    → (u : State ℕ) → Reach live u (tick u)
unfolding handle_event
exit_reached i n w tick m u = elim (head_or_tail m) [
  | inl e ↦ rw e (event (task_exit (exit_of "id" "id" 42)) stay)
  | inr none_left ↦ elim none_left [ ]
]

abbrev stopped_web : State ℕ
stopped_web =
    (stop_container live "id" (pos 10)
      (start_container live "id" (create_container live "id" web_config pod_config with_pod).1).1).1

Reach-IsConsistent_example :
    IsConsistent (remove_pod_sandbox live "id" (remove_container live "id" stopped_web).1).1
Reach-IsConsistent_example =
    Reach-IsConsistent live 0
      (remove_pod_sandbox live "id" (remove_container live "id" stopped_web).1).1
      (remove_sandbox "id" (remove "id" (stop "id" (pos 10) exit_reached (start "id" web_reached))))

-- ===== src/Spec/Container.antt =====
-- `generateContainerSpec` of pkg/server/container_create.go
pub mod Args
use cri_containerd.Base.{
  ◌==◌, ◌&&◌, not, string_eq, String, Bool, true, false, Option, none, some, List, [], ◌∷◌, ◌++◌,
  if◌then◌else◌, map, Result, ok, err, panic, Error, errorf, wrap, ℕ, ◌%◌, ◌^◌,
}
use cri_containerd.Base.Int.{ℤ, pos, int_eq, bits64}
use cri_containerd.Base.Text.{◌+s+◌}
use cri_containerd.Cri.{
  ContainerConfig, PodSandboxConfig, NamespaceOption, SecurityContext, Mount, Device, Capability,
  LinuxContainerResources,
}
use cri_containerd.Paths.{get_sandbox_hosts, get_resolv_path, get_sandbox_dev_shm}
use cri_containerd.Store.Image.{ImageConfig}
use cri_containerd.Exec.{Exec, pure, raise, modify, wrap_error, gets, ◌>>=◌, ◌>>◌}
use cri_containerd.Service.{Reply, value, failure, outcome}
use cri_containerd.Service.{
  Generator, SpecMount, HostDevice, LinuxDevice, DeviceRule, allow_all, allow,
}
use cri_containerd.Spec.Devices.{add_oci_devices, set_oci_linux_resource, set_oci_capabilities}
use cri_containerd.Spec.Common.{
  add_image_envs, set_cgroups, get_network_namespace, get_ipc_namespace, get_uts_namespace,
  get_pid_namespace,
}
use cri_containerd.Spec.Sandbox.{generated}

-- the mounts that every container gets from its sandbox
unfoldable pub generate_container_mounts : String → ContainerConfig → List Mount
generate_container_mounts sandbox_root_dir config =
    let security = config.security_context in
    record {
      container_path = "/etc/hosts";
      host_path = get_sandbox_hosts sandbox_root_dir;
      readonly = security.readonly_rootfs;
    }
    ∷ record {
      container_path = "/etc/resolv.conf";
      host_path = get_resolv_path sandbox_root_dir;
      readonly = security.readonly_rootfs;
    }
    ∷ record {
      container_path = "/dev/shm";
      host_path =
          if security.namespace_options.host_ipc
          then "/dev/shm"
          else get_sandbox_dev_shm sandbox_root_dir;
      readonly = false;
    }
    ∷ []

-- `clearReadOnly`
unfoldable pub clear_read_only : List String → List String
clear_read_only [] = []
clear_read_only (o ∷ os) =
    let rest = clear_read_only os in if not (o == "ro") then o ∷ rest else rest

-- the loop over the mounts of a privileged container
unfoldable pub clear_mounts : Bool → List SpecMount → List SpecMount
unfolding clear_read_only
clear_mounts root_readonly [] = []
clear_mounts root_readonly (m ∷ ms) =
    let rest = clear_mounts root_readonly ms in
    let sys =
      if m.destination == "/sys" && not root_readonly
      then record m { options = clear_read_only m.options }
      else m in
    (if m.kind == "cgroup" then record sys { options = clear_read_only sys.options } else sys)
    ∷ rest

abbrev is_empty : List String → Bool
is_empty [] = true
is_empty (_ ∷ _) = false

-- `command` of the configuration: a nil command has no words
abbrev words : Option (List String) → List String
words none = []
words (some command) = command

-- a nil command is replaced by the entrypoint
abbrev or_entrypoint : Option (List String) → ImageConfig → List String
or_entrypoint none image = image.entrypoint
or_entrypoint (some command) image = command

-- what `append(command, args...)` is in the end of `setOCIProcessArgs`
unfoldable pub process_args : Option (List String) → List String → ImageConfig → List String
process_args command args image =
    let new_args = if is_empty (words command) && is_empty args then image.cmd else args in
    or_entrypoint command image ++ new_args

module _ (g : Generator) where
  open g use {
    Spec, set_root_path, set_root_readonly, root_readonly, set_process_args, set_process_cwd,
    set_process_terminal, add_process_env, add_process_additional_gid, add_process_capability,
    drop_process_capability, setup_privileged, add_cgroups_mount, add_bind_mount, mounts,
    set_mounts, clear_readonly_paths, clear_masked_paths, add_device, device_rules,
    set_device_rules, set_cpu_period, set_cpu_quota, set_cpu_shares, set_memory_limit,
    set_oom_score_adj, set_namespace, host_devices, device_from_path, is_symlink, eval_symlinks,
  }

  unfoldable pub set_oci_process_args : ContainerConfig → ImageConfig → Exec Spec (Unit {0})
  unfolding process_args
  set_oci_process_args config image = elim (process_args config.command config.args image) [
    | [] ↦ raise (errorf "no command specified" [])
    | first ∷ rest ↦ modify (set_process_args (first ∷ rest))
  ]

  set_cwd : ContainerConfig → ImageConfig → Exec Spec (Unit {0})
  set_cwd config image =
      if not (config.working_dir == "")
      then modify (set_process_cwd config.working_dir)
      else if not (image.working_dir == "")
      then modify (set_process_cwd image.working_dir)
      else pure tt

  add_envs : List (String × String) → Exec Spec (Unit {0})
  add_envs [] = pure tt
  add_envs ((k, v) ∷ es) = modify (add_process_env k v) >> add_envs es

  bind_mounts : List Mount → Exec Spec (Unit {0})
  bind_mounts [] = pure tt
  bind_mounts (m ∷ ms) =
      modify
        (add_bind_mount m.host_path m.container_path (if m.readonly then "ro" ∷ [] else "rw" ∷ []))
      >> bind_mounts ms

  clear_for_privileged : Bool → Exec Spec (Unit {0})
  unfolding clear_mounts
  clear_for_privileged false = pure tt
  clear_for_privileged true = do
    modify λ s. set_mounts (clear_mounts (root_readonly s) (mounts s)) s
    modify clear_readonly_paths
    modify clear_masked_paths

  unfoldable pub add_oci_bind_mounts : List Mount → Bool → Exec Spec (Unit {0})
  unfolding bind_mounts clear_for_privileged
  add_oci_bind_mounts ms privileged = do
    modify (add_cgroups_mount "ro")
    bind_mounts ms
    clear_for_privileged privileged

  -- The namespace options of the container are not read: it joins those of the sandbox.
  unfoldable pub set_oci_namespaces : ℕ → Exec Spec (Unit {0})
  set_oci_namespaces sandbox_pid = do
    modify (set_namespace "network" (get_network_namespace sandbox_pid))
    modify (set_namespace "ipc" (get_ipc_namespace sandbox_pid))
    modify (set_namespace "uts" (get_uts_namespace sandbox_pid))
    modify (set_namespace "pid" (get_pid_namespace sandbox_pid))

  -- `uint32(group)` of an `int64`
  add_groups : List ℤ → Exec Spec (Unit {0})
  add_groups [] = pure tt
  add_groups (x ∷ xs) = modify (add_process_additional_gid (bits64 x % 2 ^ 32)) >> add_groups xs

  fill_container_spec :
      String
      → ℕ
      → ContainerConfig
      → PodSandboxConfig
      → ImageConfig
      → List Mount
      → Exec Spec (Unit {0})
  unfolding set_oci_process_args set_cwd add_image_envs add_envs add_oci_bind_mounts set_cgroups
      set_oci_namespaces add_groups
  fill_container_spec id sandbox_pid config sandbox_config image extra = do
    let security = config.security_context
    modify (set_root_path "rootfs")
    set_oci_process_args config image
    set_cwd config image
    modify (set_process_terminal config.tty)
    (if config.tty then modify (add_process_env "TERM" "xterm") else pure tt)
    add_image_envs g image.env
    add_envs config.envs
    add_oci_bind_mounts (extra ++ config.mounts) security.privileged
    modify (set_root_readonly security.readonly_rootfs)
    wrap_error (wrap "failed to set devices mapping %+v: %v" [])
        (add_oci_devices g config.devices security.privileged)
    set_oci_linux_resource g config.resources
    set_cgroups g sandbox_config.cgroup_parent id
    wrap_error (wrap "failed to set capabilities %+v: %v" [])
        (set_oci_capabilities g security.capabilities security.privileged)
    set_oci_namespaces sandbox_pid
    add_groups security.supplemental_groups

  unfoldable pub generate_container_spec :
      String → ℕ → ContainerConfig → PodSandboxConfig → ImageConfig → List Mount → Result Spec
  unfolding fill_container_spec
  generate_container_spec id sandbox_pid config sandbox_config image extra =
      generated g (fill_container_spec id sandbox_pid config sandbox_config image extra)

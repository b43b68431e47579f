-- ===== src/Spec/Devices.antt =====
-- The devices, resources and capabilities of a container, in pkg/server/container_create.go.
use cri_containerd.Base.{
  ◌==◌, ◌&&◌, not, string_eq, String, Bool, true, false, Option, none, some, List, [], ◌∷◌, ◌++◌,
  if◌then◌else◌, ok, err,
}
use cri_containerd.Base.Int.{pos, int_eq, bits64}
use cri_containerd.Base.Text.{◌+s+◌}
use cri_containerd.Cri.{Device, Capability, LinuxContainerResources}
use cri_containerd.Exec.{Exec, pure, modify, ◌>>=◌, ◌>>◌}
use cri_containerd.Service.{Reply, value, failure, outcome}
use cri_containerd.Service.{Generator, HostDevice, LinuxDevice, allow_all, allow}

module _ (g : Generator) where
  open g use {
    Spec, set_root_path, set_root_readonly, root_readonly, set_process_args, set_process_cwd,
    set_process_terminal, add_process_env, add_process_additional_gid, add_process_capability,
    drop_process_capability, setup_privileged, add_cgroups_mount, add_bind_mount, mounts,
    set_mounts, clear_readonly_paths, clear_masked_paths, add_device, device_rules,
    set_device_rules, set_cpu_period, set_cpu_quota, set_cpu_shares, set_memory_limit,
    set_oom_score_adj, set_namespace, host_devices, device_from_path, is_symlink, eval_symlinks,
  }

  -- a call that may fail, on the specification
  apply : (Spec → Reply Spec) → Exec Spec (Unit {0})
  apply f s = elim (f s) [ value s' ↦ (ok tt, s') | failure e ↦ (err e, s) ]

  ask : {A : Type 0} → Reply A → Exec Spec A
  ask r s = (outcome r, s)

  to_linux_device : String → HostDevice → LinuxDevice
  to_linux_device path d = record {
    path = path;
    kind = d.kind;
    major = d.major;
    minor = d.minor;
    uid = d.uid;
    gid = d.gid;
  }

  -- a device without numbers is no device
  add_host_devices : List HostDevice → Exec Spec (Unit {0})
  unfolding to_linux_device
  add_host_devices [] = pure tt
  add_host_devices (d ∷ ds) =
      (if d.major == pos 0 && d.minor == pos 0
        then pure tt
        else modify (add_device (to_linux_device d.path d)))
      >> add_host_devices ds

  resolve_symbolic_link : String → Exec Spec String
  unfolding ask
  resolve_symbolic_link path = do
    link ← ask (is_symlink path)
    (if not link then pure path else ask (eval_symlinks path))

  add_config_device : Device → Exec Spec (Unit {0})
  unfolding resolve_symbolic_link ask to_linux_device
  add_config_device d = do
    path ← resolve_symbolic_link d.host_path
    dev ← ask (device_from_path path d.permissions)
    modify (add_device (to_linux_device d.container_path dev))
    modify λ s.
        set_device_rules (device_rules s ++ allow dev.kind dev.major dev.minor dev.permissions ∷ [])
          s

  add_config_devices : List Device → Exec Spec (Unit {0})
  unfolding add_config_device
  add_config_devices [] = pure tt
  add_config_devices (d ∷ ds) = add_config_device d >> add_config_devices ds

  unfoldable pub add_oci_devices : List Device → Bool → Exec Spec (Unit {0})
  unfolding add_host_devices add_config_devices ask
  add_oci_devices ds true = do
    hosts ← ask host_devices
    add_host_devices hosts
    modify (set_device_rules (allow_all "rwm" ∷ []))
  add_oci_devices ds false = add_config_devices ds

  unfoldable pub set_oci_linux_resource : Option LinuxContainerResources → Exec Spec (Unit {0})
  set_oci_linux_resource none = pure tt
  set_oci_linux_resource (some r) = do
    modify (set_cpu_period (bits64 r.cpu_period))
    modify (set_cpu_quota r.cpu_quota)
    modify (set_cpu_shares (bits64 r.cpu_shares))
    modify (set_memory_limit r.memory_limit_in_bytes)
    modify (set_oom_score_adj r.oom_score_adj)

  change_capabilities : (String → Spec → Reply Spec) → List String → Exec Spec (Unit {0})
  unfolding apply
  change_capabilities f [] = pure tt
  change_capabilities f (c ∷ cs) = apply (f ("CAP_" +s+ c)) >> change_capabilities f cs

  unfoldable pub set_oci_capabilities : Option Capability → Bool → Exec Spec (Unit {0})
  unfolding change_capabilities
  set_oci_capabilities o true = modify (setup_privileged true)
  set_oci_capabilities none false = pure tt
  set_oci_capabilities (some c) false =
      change_capabilities add_process_capability c.add_capabilities
      >> change_capabilities drop_process_capability c.drop_capabilities

-- ===== src/Service/Specs.antt =====
-- The generator of OCI specifications (github.com/opencontainers/runtime-tools/generate), the default
-- specification of containerd, and the devices of the host: parameters of the model.
use cri_containerd.Base.{ℕ, String, Bool, List}
use cri_containerd.Base.Int.{ℤ}
use cri_containerd.Service.Memory.{Reply}

-- `specs.Mount`
pub record SpecMount : Type 0 where
  pub destination : String
  pub kind : String
  pub source : String
  pub options : List String

-- a device of the host, as `devices.HostDevices` and `devices.DeviceFromPath` describe it
pub record HostDevice : Type 0 where
  pub path : String
  pub kind : String
  pub major : ℤ
  pub minor : ℤ
  pub permissions : String
  pub uid : ℕ
  pub gid : ℕ

-- `specs.LinuxDevice`
pub record LinuxDevice : Type 0 where
  pub path : String
  pub kind : String
  pub major : ℤ
  pub minor : ℤ
  pub uid : ℕ
  pub gid : ℕ

-- `specs.LinuxDeviceCgroup`: the rule for every device, or for one
pub data DeviceRule : Type 0 where
  allow_all : String → DeviceRule
  allow : String → ℤ → ℤ → String → DeviceRule

pub record Generator : Type 1 where
  pub Spec : Type 0
  pub default_spec : Reply Spec
  pub marshal : Spec → Reply String
  pub set_root_path : String → Spec → Spec
  pub set_root_readonly : Bool → Spec → Spec
  pub root_readonly : Spec → Bool
  pub set_hostname : String → Spec → Spec
  pub set_process_args : List String → Spec → Spec
  pub set_process_cwd : String → Spec → Spec
  pub set_process_terminal : Bool → Spec → Spec
  pub add_process_env : String → String → Spec → Spec
  pub add_process_additional_gid : ℕ → Spec → Spec
  pub add_process_capability : String → Spec → Reply Spec
  pub drop_process_capability : String → Spec → Reply Spec
  pub setup_privileged : Bool → Spec → Spec
  pub add_cgroups_mount : String → Spec → Spec
  pub add_bind_mount : String → String → List String → Spec → Spec
  pub mounts : Spec → List SpecMount
  pub set_mounts : List SpecMount → Spec → Spec
  pub clear_readonly_paths : Spec → Spec
  pub clear_masked_paths : Spec → Spec
  pub add_device : LinuxDevice → Spec → Spec
  pub device_rules : Spec → List DeviceRule
  pub set_device_rules : List DeviceRule → Spec → Spec
  pub set_cpu_period : ℕ → Spec → Spec
  pub set_cpu_quota : ℤ → Spec → Spec
  pub set_cpu_shares : ℕ → Spec → Spec
  pub set_memory_limit : ℤ → Spec → Spec
  pub set_oom_score_adj : ℤ → Spec → Spec
  pub set_cgroups_path : String → Spec → Spec
  pub set_namespace : String → String → Spec → Spec
  pub remove_namespace : String → Spec → Spec
  pub add_sysctl : String → String → Spec → Spec
  -- the devices and the links of the host
  pub host_devices : Reply (List HostDevice)
  pub device_from_path : String → String → Reply HostDevice
  pub is_symlink : String → Reply Bool
  pub eval_symlinks : String → Reply String

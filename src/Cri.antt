-- ===== src/Cri.antt =====
-- The messages of the CRI that the program reads and writes, as the protocol declares them
-- (vendor/k8s.io/kubernetes/pkg/kubelet/apis/cri/v1alpha1/runtime). A message pointer that may be
-- nil is an `Option`; getters of a nil message give the zero value.
use cri_containerd.Base.{ℕ, String, Bool, false, Option, none, List, [], ◌≡◌, ◌↔◌, arith, true, Eq}
use cri_containerd.Base.Int.{ℤ}
use cri_containerd.Map.{Map}

-- `runtime.ContainerState`
pub data ContainerState : Type 0 where
  created running exited unknown : ContainerState

abbrev pub state_beq : ContainerState → ContainerState → Bool
state_beq created created = true
state_beq running running = true
state_beq exited exited = true
state_beq unknown unknown = true
state_beq _ _ = false

pub state_beq_iff : (a b : ContainerState) → (state_beq a b ≡ true) ↔ (a ≡ b)
state_beq_iff a b = (λ h. ground arith, λ h. ground arith)

instance abbrev pub state_eq : Eq ContainerState
state_eq = record { test = state_beq; test_iff = state_beq_iff }

-- `runtime.PodSandboxState`
pub data PodSandboxState : Type 0 where
  ready not_ready : PodSandboxState

abbrev pub sandbox_state_beq : PodSandboxState → PodSandboxState → Bool
sandbox_state_beq ready ready = true
sandbox_state_beq not_ready not_ready = true
sandbox_state_beq _ _ = false

pub sandbox_state_beq_iff : (a b : PodSandboxState) → (sandbox_state_beq a b ≡ true) ↔ (a ≡ b)
sandbox_state_beq_iff a b = (λ h. ground arith, λ h. ground arith)

instance abbrev pub sandbox_state_eq : Eq PodSandboxState
sandbox_state_eq = record { test = sandbox_state_beq; test_iff = sandbox_state_beq_iff }

pub record PodSandboxMetadata : Type 0 where
  pub name : String
  pub uid : String
  pub namespace : String
  pub attempt : ℕ  -- uint32

pub record ContainerMetadata : Type 0 where
  pub name : String
  pub attempt : ℕ  -- uint32

pub record NamespaceOption : Type 0 where
  pub host_network : Bool
  pub host_pid : Bool
  pub host_ipc : Bool

pub record Mount : Type 0 where
  pub container_path : String
  pub host_path : String
  pub readonly : Bool

pub record Device : Type 0 where
  pub container_path : String
  pub host_path : String
  pub permissions : String

pub record Capability : Type 0 where
  pub add_capabilities : List String
  pub drop_capabilities : List String

pub record LinuxContainerResources : Type 0 where
  pub cpu_period : ℤ
  pub cpu_quota : ℤ
  pub cpu_shares : ℤ
  pub memory_limit_in_bytes : ℤ
  pub oom_score_adj : ℤ

-- `LinuxContainerSecurityContext`, as far as the program reads it
pub record SecurityContext : Type 0 where
  pub capabilities : Option Capability
  pub privileged : Bool
  pub namespace_options : NamespaceOption
  pub readonly_rootfs : Bool
  pub supplemental_groups : List ℤ

-- A slice that is compared with nil is an `Option`.
pub record ContainerConfig : Type 0 where
  pub metadata : Option ContainerMetadata
  pub image : Option String
  pub command : Option (List String)
  pub args : List String
  pub working_dir : String
  pub envs : List (String × String)
  pub mounts : List Mount
  pub devices : List Device
  pub labels : Map String
  pub annotations : Map String
  pub log_path : String
  pub stdin : Bool
  pub tty : Bool
  pub resources : Option LinuxContainerResources
  pub security_context : SecurityContext

pub record DnsConfig : Type 0 where
  pub servers : List String
  pub searches : List String
  pub options : List String

pub record PodSandboxConfig : Type 0 where
  pub metadata : Option PodSandboxMetadata
  pub hostname : String
  pub log_directory : String
  pub dns_config : Option DnsConfig
  pub labels : Map String
  pub annotations : Map String
  pub cgroup_parent : String
  pub sysctls : Map String
  pub namespace_options : NamespaceOption

abbrev zero_options : NamespaceOption
zero_options = record { host_network = false; host_pid = false; host_ipc = false }

abbrev zero_security_context : SecurityContext
zero_security_context = record {
  capabilities = none;
  privileged = false;
  namespace_options = zero_options;
  readonly_rootfs = false;
  supplemental_groups = [];
}

-- what the getters of a nil `ContainerConfig` give
abbrev pub zero_config : ContainerConfig
zero_config = record {
  metadata = none;
  image = none;
  command = none;
  args = [];
  working_dir = "";
  envs = [];
  mounts = [];
  devices = [];
  labels = [];
  annotations = [];
  log_path = "";
  stdin = false;
  tty = false;
  resources = none;
  security_context = zero_security_context;
}

-- what the getters of a nil `PodSandboxConfig` give
abbrev pub zero_sandbox_config : PodSandboxConfig
zero_sandbox_config = record {
  metadata = none;
  hostname = "";
  log_directory = "";
  dns_config = none;
  labels = [];
  annotations = [];
  cgroup_parent = "";
  sysctls = [];
  namespace_options = zero_options;
}

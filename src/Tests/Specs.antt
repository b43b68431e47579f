-- ===== src/Tests/Specs.antt =====
-- A generator whose specification is the process arguments and the environment, enough to run the
-- code on.
use cri_containerd.Base.{String, false, List, [], ◌∷◌, fault}
use cri_containerd.Service.{Generator, value, failure}

pub record Process : Type 0 where
  pub args : List String
  pub env : List (String × String)

abbrev pub no_process : Process
no_process = record { args = []; env = [] }

abbrev pub toy_generator : Generator
toy_generator = record {
  Spec = Process;
  default_spec = value no_process;
  marshal = λ s. value "spec";
  set_root_path = λ path s. s;
  set_root_readonly = λ b s. s;
  root_readonly = λ s. false;
  set_hostname = λ name s. s;
  set_process_args = λ args s. record s { args = args };
  set_process_cwd = λ dir s. s;
  set_process_terminal = λ b s. s;
  add_process_env = λ k v s. record s { env = (k, v) ∷ s.env };
  add_process_additional_gid = λ n s. s;
  add_process_capability = λ c s. value s;
  drop_process_capability = λ c s. value s;
  setup_privileged = λ b s. s;
  add_cgroups_mount = λ option s. s;
  add_bind_mount = λ from to options s. s;
  mounts = λ s. [];
  set_mounts = λ ms s. s;
  clear_readonly_paths = λ s. s;
  clear_masked_paths = λ s. s;
  add_device = λ d s. s;
  device_rules = λ s. [];
  set_device_rules = λ rs s. s;
  set_cpu_period = λ n s. s;
  set_cpu_quota = λ n s. s;
  set_cpu_shares = λ n s. s;
  set_memory_limit = λ n s. s;
  set_oom_score_adj = λ n s. s;
  set_cgroups_path = λ path s. s;
  set_namespace = λ kind path s. s;
  remove_namespace = λ kind s. s;
  add_sysctl = λ k v s. s;
  host_devices = value [];
  device_from_path = λ path permissions. failure (fault "no device");
  is_symlink = λ path. value false;
  eval_symlinks = λ path. value path;
}

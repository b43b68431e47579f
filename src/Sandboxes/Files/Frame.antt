-- ===== src/Sandboxes/Files/Frame.antt =====
-- What setting up and unmounting the files of a sandbox changes of the service.
use cri_containerd.Base.{String, Bool, true, false}
use cri_containerd.Cri.{PodSandboxConfig}
use cri_containerd.Exec.Keeps.{Keeps}
use cri_containerd.Service.{State, Env}
use cri_containerd.Service.Frame.{Outside, outside_rules}
use cri_containerd.Sandboxes.Files.{
  write_resolv_conf, set_up_dev_shm, setup_sandbox_files, unmount_sandbox_files,
}

module _ (env : Env) (s0 : State env.World) where
  write_resolv_conf-Outside :
      (path text : String) → Keeps (Outside s0) (write_resolv_conf env path text)
  unfolding write_resolv_conf
  write_resolv_conf-Outside path text = search outside_rules depth 8

  set_up_dev_shm-Outside : (dir : String) (b : Bool) → Keeps (Outside s0) (set_up_dev_shm env dir b)
  unfolding set_up_dev_shm
  set_up_dev_shm-Outside dir true = search outside_rules depth 8
  set_up_dev_shm-Outside dir false = search outside_rules depth 10

  pub setup_sandbox_files-Outside :
      (dir : String) (config : PodSandboxConfig)
      → Keeps (Outside s0) (setup_sandbox_files env dir config)
  unfolding setup_sandbox_files
  setup_sandbox_files-Outside dir config =
      search (outside_rules, write_resolv_conf-Outside, set_up_dev_shm-Outside) depth 12

  pub unmount_sandbox_files-Outside :
      (dir : String) (config : PodSandboxConfig)
      → Keeps (Outside s0) (unmount_sandbox_files env dir config)
  unfolding unmount_sandbox_files
  unmount_sandbox_files-Outside dir config = search outside_rules depth 8

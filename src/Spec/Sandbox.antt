-- ===== src/Spec/Sandbox.antt =====
-- `generateSandboxContainerSpec` of pkg/server/sandbox_run.go
use cri_containerd.Base.{
  ◌==◌, not, string_eq, String, Bool, true, false, [], ◌∷◌, ◌++◌, Result, ok, err, panic, errorf,
}
use cri_containerd.Base.Int.{negate}
use cri_containerd.Cri.{PodSandboxConfig, NamespaceOption}
use cri_containerd.Map.{Map}
use cri_containerd.Store.Image.{ImageConfig}
use cri_containerd.Exec.{Exec, pure, raise, modify, ◌>>◌}
use cri_containerd.Service.{value, failure}
use cri_containerd.Service.{Generator}
use cri_containerd.Spec.Common.{add_image_envs, set_cgroups}

module _ (g : Generator) where
  open g use {
    Spec, default_spec, set_root_path, set_root_readonly, set_hostname, set_process_args,
    set_process_cwd, remove_namespace, add_sysctl, set_cpu_shares, set_oom_score_adj,
  }

  when : Bool → (Spec → Spec) → Exec Spec (Unit {0})
  when true f = modify f
  when false f = pure tt

  -- the process of the image, which must have an entrypoint
  set_pause_args : ImageConfig → Exec Spec (Unit {0})
  set_pause_args image = elim image.entrypoint [
    | [] ↦ raise (errorf "invalid empty entrypoint in image config %+v" [])
    | first ∷ rest ↦ modify (set_process_args ((first ∷ rest) ++ image.cmd))
  ]

  -- the namespaces that the sandbox shares with the host
  leave_namespaces : NamespaceOption → Exec Spec (Unit {0})
  unfolding when
  leave_namespaces o = do
    when o.host_network (remove_namespace "network")
    when o.host_pid (remove_namespace "pid")
    when o.host_ipc (remove_namespace "ipc")

  add_sysctls : Map String → Exec Spec (Unit {0})
  add_sysctls [] = pure tt
  add_sysctls ((key, text) ∷ rest) = modify (add_sysctl key text) >> add_sysctls rest

  fill_sandbox_spec : String → PodSandboxConfig → ImageConfig → Exec Spec (Unit {0})
  unfolding add_image_envs set_pause_args set_cgroups leave_namespaces add_sysctls when
  fill_sandbox_spec id config image = do
    add_image_envs g image.env
    when (not (image.working_dir == "")) (set_process_cwd image.working_dir)
    set_pause_args image
    modify (set_root_path "rootfs")
    modify (set_root_readonly true)
    modify (set_hostname config.hostname)
    set_cgroups g config.cgroup_parent id
    leave_namespaces config.namespace_options
    add_sysctls config.sysctls
    modify (set_cpu_shares 2)
    modify (set_oom_score_adj (negate 998))

  -- the specification that an action leaves of the default one
  abbrev pub generated : Exec Spec (Unit {0}) → Result Spec
  generated fill = elim default_spec [
    | value spec ↦ let (r, s) = fill spec in elim r [ ok _ ↦ ok s | err e ↦ err e | panic ↦ panic ]
    | failure e ↦ err e
  ]

  unfoldable pub generate_sandbox_container_spec :
      String → PodSandboxConfig → ImageConfig → Result Spec
  unfolding fill_sandbox_spec
  generate_sandbox_container_spec id config image = generated (fill_sandbox_spec id config image)

-- ===== src/Sandboxes/Files.antt =====
-- pkg/server/sandbox_run.go: the files of a sandbox.
pub mod Frame
use cri_containerd.Base.{
  ◌==◌, not, string_eq, String, Bool, true, false, Option, none, some, List, [], ◌∷◌, if◌then◌else◌,
  Result, ok, err, panic, Error, wrap,
}
use cri_containerd.Base.Text.{◌+s+◌}
use cri_containerd.Cri.{PodSandboxConfig, DnsConfig}
use cri_containerd.Paths.{get_sandbox_hosts, get_resolv_path, get_sandbox_dev_shm}
use cri_containerd.Exec.{Exec, pure, lift, wrap_error, unless, ◌>>=◌, ◌>>◌}
use cri_containerd.Service.{State, Env, call}
use cri_containerd.Containers.Common.{ignore}
use cri_containerd.Sandboxes.Dns.{parse_dns_options}

-- the DNS configuration as the text of resolv.conf; there may be none
resolv_content : Option DnsConfig → Result String
unfolding parse_dns_options
resolv_content none = ok ""
resolv_content (some d) = parse_dns_options d.servers d.searches d.options

module _ (env : Env) where
  open env use {World, os_is_not_exist, copy_file, write_file, stat, mkdir_all, mount, unmount}

  write_resolv_conf : String → String → Exec (State World) (Unit {0})
  write_resolv_conf path text =
      if text == ""
      then wrap_error (wrap "failed to copy host's resolv.conf to %q: %v" (path ∷ []))
          (call (copy_file "/etc/resolv.conf" path 0o644))
      else wrap_error (wrap "failed to write resolv content to %q: %v" (path ∷ []))
          (call (write_file path text 0o644))

  set_up_dev_shm : String → Bool → Exec (State World) (Unit {0})
  set_up_dev_shm root_dir true =
      wrap_error (wrap "host %q is not available for host ipc: %v" ("/dev/shm" ∷ []))
        (call (stat "/dev/shm"))
  set_up_dev_shm root_dir false = do
    let path = get_sandbox_dev_shm root_dir
    wrap_error (wrap "failed to create sandbox shm: %v" []) (call (mkdir_all path 0o700))
    wrap_error (wrap "failed to mount sandbox shm: %v" []) (
        call
          (mount "shm" path "tmpfs" ("noexec" ∷ "nosuid" ∷ "nodev" ∷ []) "mode=1777,size=67108864"))

  unfoldable pub setup_sandbox_files : String → PodSandboxConfig → Exec (State World) (Unit {0})
  unfolding write_resolv_conf set_up_dev_shm resolv_content
  setup_sandbox_files root_dir config = do
    let hosts = get_sandbox_hosts root_dir
    wrap_error (wrap "failed to generate sandbox hosts file %q: %v" (hosts ∷ []))
        (call (copy_file "/etc/hosts" hosts 0o644))
    text ←
        wrap_error (wrap "failed to parse sandbox DNSConfig %+v: %v" [])
          (lift (resolv_content config.dns_config))
    write_resolv_conf (get_resolv_path root_dir) text
    set_up_dev_shm root_dir config.namespace_options.host_ipc

  unfoldable pub unmount_sandbox_files : String → PodSandboxConfig → Exec (State World) (Unit {0})
  unmount_sandbox_files root_dir config =
      if not config.namespace_options.host_ipc
      then unless os_is_not_exist (call (unmount (get_sandbox_dev_shm root_dir)))
      else pure tt

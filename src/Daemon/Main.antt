-- ===== src/Daemon/Main.antt =====
-- `main` of cmd/cri-containerd/cri_containerd.go. What it returns is the exit status of the process;
-- the goroutines that `Start` spawns are the event monitor and the streaming server.
use cri_containerd.Base.{ℕ, String, ok, err, panic, if◌then◌else◌}
use cri_containerd.Exec.{Exec, pure, ◌>>=◌, ◌>>◌}
use cri_containerd.Daemon.Options.{Options, default_options}
use cri_containerd.Daemon.Host.{Host, run}
use cri_containerd.Daemon.Version.{print_version}
use cri_containerd.Daemon.Init.{new_cri_containerd_service}
use cri_containerd.Daemon.Server.{run_server}

module _ {W : Type 0} (host : Host W) where
  open host use {parse_flags}

  -- `glog.Exitf` on an error, and else what comes next
  or_exit : {A : Type 0} → Exec W A → (A → Exec W ℕ) → Exec W ℕ
  or_exit m next w =
      let (r, w') = m w in elim r [ ok a ↦ next a w' | err e ↦ (ok 1, w') | panic ↦ (panic, w') ]

  serve_options : Options → Exec W ℕ
  unfolding or_exit
  serve_options o =
      or_exit
        (new_cri_containerd_service host o.containerd_endpoint o.root_dir o.network_plugin_bin_dir
          o.network_plugin_conf_dir o.stream_server_address o.stream_server_port)
        λ service. or_exit (run_server host o.socket_path) λ done. pure 0

  unfoldable pub main : String → Exec W ℕ
  unfolding serve_options
  main cri_containerd_version = do
    o ← run (parse_flags default_options)
    if o.print_version then print_version host cri_containerd_version >> pure 0 else serve_options o

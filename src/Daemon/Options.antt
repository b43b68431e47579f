-- ===== src/Daemon/Options.antt =====
-- cmd/cri-containerd/options/options.go: the options of the command line.
use cri_containerd.Base.{ℕ, ◌*◌, String, Bool, false}
use cri_containerd.Containers.Stop.{second}

-- `CRIContainerdOptions`
pub record Options : Type 0 where
  pub socket_path : String
  pub root_dir : String
  pub print_version : Bool
  pub containerd_endpoint : String
  pub containerd_connection_timeout : ℕ
  pub network_plugin_bin_dir : String
  pub network_plugin_conf_dir : String
  pub stream_server_address : String
  pub stream_server_port : String

-- the defaults that `AddFlags` gives to the flags
abbrev pub default_options : Options
default_options = record {
  socket_path = "/var/run/cri-containerd.sock";
  root_dir = "/var/lib/cri-containerd";
  print_version = false;
  containerd_endpoint = "/run/containerd/containerd.sock";
  containerd_connection_timeout = 2 * 60 * second;
  network_plugin_bin_dir = "/etc/cni/net.d";
  network_plugin_conf_dir = "/opt/cni/bin";
  stream_server_address = "";
  stream_server_port = "10010";
}

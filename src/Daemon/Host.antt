-- ===== src/Daemon/Host.antt =====
-- What the daemon calls while it starts: the flags, the sockets, containerd and the network plugin.
-- Every operation is a parameter.
use cri_containerd.Base.{ℕ, String, Bool, Error, Result, ok}
use cri_containerd.Service.{Op, Reply, outcome}
use cri_containerd.Daemon.Options.{Options}

pub record Host (W : Type 0) : Type 0 where
  pub parse_flags : Options → W → Options × W
  pub print_line : String → W → Unit {0} × W
  pub print_error : Error → W → Unit {0} × W
  pub parse_semver : String → Reply (Unit {0})
  pub connect : String → String → Op W ℕ
  pub init_cni : String → String → Op W ℕ
  pub choose_bind_address : Op W String
  pub new_server : String → Op W ℕ
  pub unlink : String → Op W (Unit {0})
  pub is_not_exist : Error → Bool
  pub listen : String → String → Op W ℕ
  pub serve : ℕ → Op W (Unit {0})

module _ {W A : Type 0} where
  -- an operation that may fail, as an action on the world
  abbrev pub ask : Op W A → W → Result A × W
  ask op w = (outcome (op w).0, (op w).1)

  -- one that cannot fail
  abbrev pub run : (W → A × W) → W → Result A × W
  run op w = (ok (op w).0, (op w).1)

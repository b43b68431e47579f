-- ===== src/Daemon/Server.antt =====
-- pkg/server/server.go: the gRPC server on its socket.
use cri_containerd.Base.{String, [], ◌∷◌, wrap}
use cri_containerd.Exec.{Exec, wrap_error, unless, ◌>>=◌, ◌>>◌}
use cri_containerd.Daemon.Host.{Host, ask}

module _ {W : Type 0} (host : Host W) where
  open host use {unlink, is_not_exist, listen, serve}

  -- `CRIContainerdServer.Run`: a socket file of an earlier run is removed first.
  unfoldable pub run_server : String → Exec W (Unit {0})
  run_server address = do
    wrap_error (wrap "failed to unlink socket file %q: %v" (address ∷ []))
        (unless is_not_exist (ask (unlink address)))
    listener ←
        wrap_error (wrap "failed to listen on %q: %v" (address ∷ [])) (ask (listen "unix" address))
    ask (serve listener)

-- ===== src/Daemon.antt =====
-- The daemon: its options, the construction of the service and the gRPC server,
-- cmd/cri-containerd and pkg/server/service.go, server.go.
pub mod Options
pub mod Host
pub mod Version
pub mod Init
pub mod Server
pub mod Main

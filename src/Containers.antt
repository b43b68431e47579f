-- ===== src/Containers.antt =====
-- pkg/server/container_*.go and events.go: the handlers of containers.
pub mod Common
pub mod Start
pub mod Stop
pub mod Remove
pub mod Query
pub mod Events
pub mod ExecSync
pub mod Monitor
pub mod Create

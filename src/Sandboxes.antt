-- ===== src/Sandboxes.antt =====
-- pkg/server/sandbox_*.go: the handlers of sandboxes.
pub mod Query
pub mod Dns
pub mod Files
pub mod Stop
pub mod Remove
pub mod Run

-- ===== src/Spec.antt =====
-- The OCI specifications of the containers, pkg/server/container_create.go and sandbox_run.go.
pub mod Common
pub mod Sandbox
pub mod Devices
pub mod Container

-- ===== src/Consistency.antt =====
-- The stores and the registrars of criContainerdService (pkg/server/service.go), seen together.
pub mod Registered
pub mod Storages
pub mod Invariant
pub mod Made
pub mod Creation
pub mod Removal
pub mod Kept
pub mod Reach

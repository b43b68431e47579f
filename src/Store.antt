-- ===== src/Store.antt =====
-- The in-memory stores of the service, pkg/store.
pub mod Status
pub mod Heap
pub mod Container
pub mod Sandbox
pub mod Image
pub mod Metadata

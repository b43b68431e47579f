-- ===== src/Service.antt =====
-- pkg/server: the service, its state and its handlers.
mod Memory
mod Specs
pub mod Frame
mod Outside
pub mod Stream
pub use Memory.*
pub use Specs.*
pub use Outside.*

-- ===== src/Exec.antt =====
-- Handlers as actions: a state goes in, an outcome and the state come out. What was written before
-- an error stays written; a panic ends the action where it happens.
mod Actions
pub mod Ends
pub mod Commits
pub mod Keeps
pub mod Panics
pub mod Returns
pub mod Succeeds
pub use Actions.*

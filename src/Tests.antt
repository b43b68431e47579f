-- ===== src/Tests.antt =====
-- The theorems at concrete inputs.
mod References
mod Specs
mod Toy
mod Containers
mod Images
mod Names
mod Sandboxes
mod Stops
mod Agents
mod Consistency
mod Execs

-- ===== src/Agents.antt =====
-- pkg/server/agents: the agents that copy the output of containers.
pub mod Reader
pub mod Logger

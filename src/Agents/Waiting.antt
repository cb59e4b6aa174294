-- ===== src/Agents/Waiting.antt =====
-- When a run of an agent comes to an end: RunAgent of temporalai/agent.go.
pub mod Returns
pub mod Run
pub mod Timeout

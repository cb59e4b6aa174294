-- ===== src/Agents.antt =====
-- temporalai: workflows that run an agent, its tools, approvals and subagents, and write their records.
-- The children down to Agent define it, and the others hold its theorems.
pub mod Types
pub mod Flow
pub mod Values
pub mod Records
pub mod Approval
pub mod Definitions
pub mod Tools
pub mod Execution
pub mod Stream
pub mod Progress
pub mod Agent
pub mod Monitor
pub mod Runs
pub mod Consent
pub mod Order
pub mod Pairing
pub mod Subagents
pub mod Waiting
pub mod Recording
pub mod Validity

-- ===== src/Tests.antt =====
-- Runs of the model at concrete inputs, and each theorem at an input that meets its hypotheses.
mod Fixtures
mod RelayTests
mod RedisTests
mod ActivityTests
mod Dynamo
mod CompositeTests
mod AgentTests
mod SubagentTests
mod ToolTests

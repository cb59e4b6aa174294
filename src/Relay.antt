-- ===== src/Relay.antt =====
-- updates/relay.go: the relay turns the parts of one model call into preview events. The children
-- down to Complete define it, and the others hold its theorems.
pub mod Part
pub mod Classify
pub mod State
pub mod Preview
pub mod Accept
pub mod Complete
pub mod Rules
pub mod Failure
pub mod Publishing
pub mod Freshness
pub mod Validity
pub mod Envelopes
pub mod Delivery

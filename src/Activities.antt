-- ===== src/Activities.antt =====
-- activities: relaying what a model answers, tool calls and the artifacts that keep large values.
pub mod Nonstream
pub mod Act
pub mod Artifacts
pub mod Tool

-- ===== src/Updates.antt =====
-- The package updates (updates/): the protocol's data, its errors, its validation, the constructors
-- of canonical events and the connectors.
pub mod Types
pub mod Errors
pub mod Validation
pub mod Records
pub mod Connector

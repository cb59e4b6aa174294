-- ===== src/Redis.antt =====
-- connectors/redis-dynamodb: previews, records and terminals in DynamoDB, live events through Redis.
-- The children down to Connector define it, and the others hold its theorems.
pub mod Options
pub mod Item
pub mod Prog
pub mod Preview
pub mod Ulid
pub mod Resolver
pub mod Records
pub mod Events
pub mod Connector
pub mod Table
pub mod Guard
pub mod Writes
pub mod Methods
pub mod Kinds
pub mod Growth
pub mod Sequences

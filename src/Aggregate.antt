-- ===== src/Aggregate.antt =====
-- The event-sourced aggregate: event entries, transactions and snapshots over in-memory
-- repositories (packages/core/minos-microservice-aggregate).
pub mod Store
pub mod Transactions
pub mod Events
pub mod Queries
pub mod Snapshots
pub mod Entities
pub mod Persistence
mod Tests

-- ===== src/Saga.antt =====
-- The saga engine (packages/core/minos-microservice-saga): steps, executions, two-phase commit.
pub mod Types
pub mod Steps
pub mod Commit
pub mod Execution
pub mod Leaf
pub mod Conditional
pub mod Definitions
pub mod Storage
pub mod Manager
mod Tests

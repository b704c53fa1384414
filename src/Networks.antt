-- ===== src/Networks.antt =====
-- The networks package (packages/core/minos-microservice-networks): how messages arrive.
pub mod Subscribers
mod Tests

-- ===== src/Common.antt =====
-- The common package (packages/core/minos-microservice-common): how values are stored.
pub mod Avro
mod Tests

-- ===== src/Aggregate/Entities.antt =====
-- The model classes of the aggregate: sets, diffs, events and root entities.
pub mod Sets
pub mod Events
pub mod Root

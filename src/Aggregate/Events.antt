-- ===== src/Aggregate/Events.antt =====
-- events/: the repository of event entries.
pub mod Repository

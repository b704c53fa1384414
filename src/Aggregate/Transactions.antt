-- ===== src/Aggregate/Transactions.antt =====
-- transactions/: the repository of transaction entries, and the life of one transaction.
pub mod Repository
pub mod Entry
pub mod Nesting

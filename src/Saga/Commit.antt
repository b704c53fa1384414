-- ===== src/Saga/Commit.antt =====
-- `TransactionCommitter` (executions/commit.py): the two-phase commit of the transactions that a
-- saga has opened in the services.
pub mod Transactions
pub mod Protocol

-- ===== src/Reconciliation.antt =====
-- internal/reconciliation: the report on the orders, the retry of one delivery and the repair.
pub mod Report
pub mod Retry
pub mod Repair
pub mod Loop

-- ===== src/Coherence.antt =====
-- The invariant of the database that all the operations keep between them, and the proofs that
-- they keep it, one module for each group of operations.
pub mod Invariant
pub mod Keeps
pub mod Acts
pub mod Statements
pub mod Payments
pub mod Orders
pub mod Create
pub mod Attempts
pub mod Jobs
pub mod Reported
pub mod Reports
pub mod Commits
pub mod Effects
pub mod Payable
pub mod Settles
pub mod Queue
pub mod Processing
pub mod Duplicates
pub mod Audit
pub mod Repairs
pub mod Mending
pub mod Retries
pub mod Recovery

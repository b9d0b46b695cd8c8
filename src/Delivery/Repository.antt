-- ===== src/Delivery/Repository.antt =====
-- internal/delivery/repository.go: claiming a job and reporting how it ended.
pub mod Claim
pub mod Report

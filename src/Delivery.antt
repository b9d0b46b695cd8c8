-- ===== src/Delivery.antt =====
-- internal/delivery: the repository that claims jobs and reports them, the providers and the
-- service that runs a job.
pub mod Repository
pub mod Provider
pub mod Service
pub mod Worker

-- ===== src/Tests.antt =====
-- Runs of the model on small inputs, and each result applied to one.
pub mod Shop
pub mod States
pub mod Examples
pub mod Deliveries
pub mod Keys
pub mod Goods
pub mod Requests
pub mod Work
pub mod Collation
pub mod Settings
pub mod Programs

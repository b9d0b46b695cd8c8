-- ===== src/Model.antt =====
-- The data of the store: the rows of the PostgreSQL tables that the code reads and writes
-- (internal/model, the statements of internal/order, internal/delivery and
-- internal/reconciliation, the columns of internal/migration), its transactions and the statements
-- over its tables. `Model/View` is what one order sees of the database.
-- Times are numbers on one clock, UUIDs are numbers; the surrogate key of a ledger row, which no
-- statement reads, is left out.
mod Status
mod Rows
mod Transaction
mod Statements
pub mod View
unfoldable pub use Status.*
pub use Rows.*
pub use Transaction.*
unfoldable pub use Statements.*

-- ===== src/Http.antt =====
-- internal/httpapi: the server's state, what a handler gets of a request, and what it answers. The
-- children have the handlers, file by file, and the router over them.
-- A request reaches a handler after chi has matched its path and the JSON decoder has read its body.
pub mod Orders
pub mod Payments
pub mod Operations
pub mod Listing
pub mod Router
pub mod Runs
pub mod Retries
pub mod Accepts
use digital_store.Prelude.{ℕ, Bool, true, false, String, Option, none, some, List, [], ◌∷◌}
use digital_store.Model.{
  Db, Order, PaymentWebhook, Tx, Result, Env, raise, context_canceled, after, result, ok, err,
}
use digital_store.Reconciliation.Report.{Report}
use digital_store.Reconciliation.Retry.{RetryResult}
use digital_store.Reconciliation.Repair.{RepairResult}
use digital_store.Catalog.{Inventory, Page}

-- What `writeJSON` encodes.
pub data Content : Type 0 where
  error : String → Content
  live ready accepted : Content
  not_ready : String → Content
  order : Order → Option String → Content
  report : Report → Content
  repaired : RepairResult → Content
  retried : RetryResult → Content
  page : Page → Content

pub record Response : Type 0 where
  pub status : ℕ
  pub content : Content

unfoldable pub write_json : ℕ → Content → Response
write_json status content = record { status = status; content = content }

unfoldable pub write_error : ℕ → String → Response
write_error status text = write_json status (Content.error text)

abbrev pub internal_error : Response
internal_error = write_error 500 "internal server error"

-- Which of the optional dependencies are not nil; the order repository is always there.
pub record Server : Type 0 where
  pub db : Bool
  pub reconciliation_service : Bool
  pub catalog_repo : Bool

unfoldable pub with_catalog : Bool → Server → Server
with_catalog repository server = record server { catalog_repo = repository }

unfoldable pub with_operations : Bool → Bool → Server → Server
with_operations db service server = record server { db = db; reconciliation_service = service }

unfoldable pub apply_options : List (Server → Server) → Server → Server
apply_options [] server = server
apply_options (option ∷ options) server = apply_options options (option server)

unfoldable pub new_server : List (Server → Server) → Server
new_server options =
    apply_options options
      (record { db = false; reconciliation_service = false; catalog_repo = false })

-- What surrounds the handling of a request: the clock and the UUID generators, whether the
-- database can be used, the table `inventory`, and what other transactions do to the database
-- before the n-th query of a report.
pub record Moment : Type 0 where
  pub env : Env
  pub drawn : ℕ
  pub down : Bool
  pub inventory : List Inventory
  pub meanwhile : ℕ → Db → Db

-- A call of a repository: while the database is down, an error and no transaction.
unfoldable pub attempt : {A : Type 0} → Moment → Tx A → Tx A
attempt at m db = elim at.down [ true ↦ raise context_canceled db | false ↦ m db ]

-- A response, from what a call of a repository returns.
unfoldable pub answer : {A : Type 0} → Tx A → (Result A → Response) → Db → Response × Db
answer m respond db = (respond (result m db), after m db)

-- A response without a call.
abbrev pub refuse : ℕ → String → Db → Response × Db
refuse status text db = (write_error status text, db)

-- The body of a webhook: what `Decode`, `Marshal` and `Unmarshal` make of it, one after the other.
-- A body that passes has an event and the text that it was encoded to.
pub data Payload : Type 0 where
  not_json not_encoded not_event : Payload
  event : PaymentWebhook → String → Payload

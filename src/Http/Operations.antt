-- ===== src/Http/Operations.antt =====
-- internal/httpapi/operations.go: the health of the server, and the requests of an administrator.
use digital_store.Prelude.{if◌then◌else◌, not, String, Option, none, some, ℕ}
use digital_store.Model.{Db, Result, ok, err, Platform, Tx, Error}
use digital_store.Reconciliation.Report.{build_report, Report}
use digital_store.Reconciliation.Retry.{retry_delivery as retry_delivery_of, RetryResult}
use digital_store.Reconciliation.Repair.{repair, RepairResult}
use digital_store.Http.{
  Content, Response, Server, Moment, write_json, write_error, internal_error, attempt, answer,
  refuse,
}

-- `liveness`
unfoldable pub liveness : Db → Response × Db
liveness db = (write_json 200 Content.live, db)

-- `readiness`; a `Ping` fails while the database is down.
unfoldable pub readiness : Server → Moment → Db → Response × Db
readiness server at db = (
  if not server.db
      then write_json 503 (Content.not_ready "database dependency is not configured")
      else if at.down
      then write_json 503 (Content.not_ready "database is unavailable")
      else write_json 200 Content.ready,
  db,
)

abbrev pub unconfigured : Db → Response × Db
unconfigured = refuse 503 "reconciliation service is not configured"

unfoldable pub reported : Result Report → Response
reported (ok r) = write_json 200 (Content.report r)
reported (err e) = internal_error

-- `BuildReport`, whose queries run one after another
unfoldable pub report_of : Moment → Tx Report
report_of at db =
    let db2 = at.meanwhile 2 db in
    let db3 = at.meanwhile 3 db2 in
    let db4 = at.meanwhile 4 db3 in ok (build_report at.env.now db db2 db3 db4, db)

-- `reconciliationReport`
unfoldable pub reconciliation_report : Server → Moment → Db → Response × Db
reconciliation_report server at =
    if not server.reconciliation_service
    then unconfigured
    else answer (attempt at (report_of at)) reported

unfoldable pub repaired : Result RepairResult → Response
repaired (ok r) = write_json 200 (Content.repaired r)
repaired (err e) = internal_error

-- `repairReconciliation`
unfoldable pub repair_reconciliation : Server → Platform → Moment → Db → Response × Db
repair_reconciliation server plat at =
    if not server.reconciliation_service
    then unconfigured
    else answer (attempt at (repair plat at.env)) repaired

unfoldable pub retried : Result RetryResult → Response
retried (ok r) = write_json 200 (Content.retried r)
retried (err Error.order_not_found) = write_error 404 "order not found"
retried (err Error.order_not_paid) = write_error 409 "order is not paid"
retried (err Error.delivery_running) = write_error 409 "delivery is currently processing"
retried (err e) = internal_error

unfoldable pub retry_parsed : Platform → Moment → Option ℕ → Db → Response × Db
retry_parsed plat at none = refuse 400 "invalid order id"
retry_parsed plat at (some id) = answer (attempt at (retry_delivery_of plat at.env id)) retried

-- `retryDelivery`
unfoldable pub retry_delivery : Server → Platform → Moment → String → Db → Response × Db
retry_delivery server plat at id =
    if not server.reconciliation_service then unconfigured else retry_parsed plat at (plat.parse id)

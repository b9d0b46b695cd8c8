-- ===== src/Http/Retries.antt =====
-- What an administrator is told who asks for a new try of a delivery.
use mathlib.Core.Option
use digital_store.Prelude.{ℕ, true, false, String, Option, none, some, ◌≡◌, arith}
use digital_store.Model.{Db, OrderStatus, Platform, order_of}
use digital_store.Model.View.{view}
use digital_store.Reconciliation.Retry.{
  queued, already_delivered, retry_attempt, retry_if_attempt, retry_paid, retry_order,
  retry_delivery as retry_delivery_of,
}
use digital_store.Coherence.Invariant.{Memory, Coherent, Coupled, order_status}
use digital_store.Http.{Content, Response, Server, Moment, write_json, write_error, attempt, answer}
use digital_store.Http.Operations.{retried, retry_parsed, retry_delivery}

-- The answer by the status of the order alone.
abbrev pub retry_answer : ℕ → Option OrderStatus → Response
retry_answer id none = write_error 404 "order not found"
retry_answer id (some OrderStatus.created) = write_error 409 "order is not paid"
retry_answer id (some OrderStatus.payment_failed) = write_error 409 "order is not paid"
retry_answer id (some OrderStatus.delivering) = write_error 409 "delivery is currently processing"
retry_answer id (some OrderStatus.delivered) =
    write_json 200 (Content.retried (already_delivered id "order is already delivered"))
retry_answer id (some OrderStatus.paid) =
    write_json 200 (Content.retried (queued id "delivery was safely queued"))
retry_answer id (some OrderStatus.out_of_stock) =
    write_json 200 (Content.retried (queued id "delivery was safely queued"))
retry_answer id (some OrderStatus.delivery_failed) =
    write_json 200 (Content.retried (queued id "delivery was safely queued"))

retry_order-answer :
    {n : Memory} (plat : Platform) (at : Moment) (id : ℕ) (db : Db)
    → Coupled n (view id db)
    → at.down ≡ false
    → (answer (attempt at (retry_delivery_of plat at.env id)) retried db).0
      ≡ retry_answer id (order_status (view id db))
unfolding answer attempt retry_delivery_of retry_order retry_paid retry_if_attempt retry_attempt
    retried
retry_order-answer plat at id db c up = ground (arith, c, up)

-- On a coherent database the answer to a request for a new try depends on the status of the order
-- alone: no order is 404; an order without a payment, and one whose delivery is running, is 409; a
-- delivered one is told so, and any other is queued. The service is configured, the database is up
-- and the path has a UUID.
pub retry_delivery-answer :
    {known : ℕ → Memory} (server : Server) (plat : Platform) (at : Moment) (id : String) (k : ℕ)
    (db : Db)
    → Coherent known db
    → server.reconciliation_service ≡ true
    → at.down ≡ false
    → plat.parse id ≡ some k
    → (retry_delivery server plat at id db).0
      ≡ retry_answer k (Option.map (λ o. o.status) (order_of k db))
unfolding retry_delivery retry_parsed
retry_delivery-answer server plat at id k db c on up parsed =
    ground (arith, on, parsed, retry_order-answer plat at k db (c.coupled k) up)

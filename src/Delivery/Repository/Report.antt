-- ===== src/Delivery/Repository/Report.antt =====
-- internal/delivery/repository.go: `MarkDelivered`, `MarkOutOfStock` and `MarkFailed`.
use digital_store.Prelude.{
  ℕ, ◌+◌, ◌==◌, if◌then◌else◌, coalesce, Bool, ◌&&◌, String, Option, none, some, pos, any_where,
  count_where,
}
use digital_store.Model.{
  Db, Order, DeliveryAttempt, LedgerEntry, OrderStatus, DeliveryStatus, EntryType, is_processing,
  is_delivering, is_issued, is_delivery, Tx, Env, exec, pure, raise, ◌>>◌, no_rows, not_processing,
  not_delivering, order_of, attempt_by_id, update_order, update_attempts, add_ledger_entry,
}
use digital_store.Delivery.Repository.Claim.{Job}

abbrev pub is_processing_row : ℕ → DeliveryAttempt → Bool
is_processing_row id d = (d.id == id) && is_processing d.status

unfoldable pub delivered_attempt : Env → String → String → DeliveryAttempt → DeliveryAttempt
delivered_attempt env provider code d = record d {
  provider = some provider;
  status = DeliveryStatus.delivered;
  code = some code;
  error = none;
  next_attempt_at = none;
  locked_at = none;
  updated_at = env.now;
}

unfoldable pub delivered_order : Env → Order → Order
delivered_order env o = record o {
  status = OrderStatus.delivered;
  delivered_at = some (coalesce o.delivered_at env.now);
  last_error = none;
  updated_at = env.now;
}

-- An `UPDATE` of the attempt that must reach exactly one row.
unfoldable pub update_processing : ℕ → (DeliveryAttempt → DeliveryAttempt) → Tx (Unit {0})
update_processing id f db =
    if count_where (is_processing_row id) db.delivery_attempts == 1
    then exec (update_attempts (is_processing_row id) f) db
    else raise not_processing db

unfoldable pub mark_order_delivered : Env → ℕ → Tx (Unit {0})
mark_order_delivered env id db =
    if count_where (λ o. (o.id == id) && is_delivering o.status) db.orders == 1
    then exec (update_order id (λ o. is_delivering o.status) (delivered_order env)) db
    else raise not_delivering db

unfoldable pub delivery_row : Env → Order → LedgerEntry
delivery_row env o = record {
  order_id = o.id;
  entry_type = EntryType.delivery;
  amount_minor = pos 0;
  currency = o.currency;
  created_at = env.now;
}

-- `INSERT INTO ledger_entries … SELECT … FROM orders WHERE id = $1 AND NOT EXISTS (…)`
unfoldable pub insert_delivery_entry : Env → ℕ → Db → Db
insert_delivery_entry env id db = elim (order_of id db) [
  | none ↦ db
  | some o ↦
      if any_where (λ l. (l.order_id == id) && is_delivery l.entry_type) db.ledger_entries
      then db
      else add_ledger_entry (delivery_row env o) db
]

unfoldable pub deliver : Env → Job → String → String → Tx (Unit {0})
deliver env job provider code = do
  update_processing job.delivery_id (delivered_attempt env provider code)
  mark_order_delivered env job.order_id
  exec (insert_delivery_entry env job.order_id)

unfoldable pub deliver_if_found :
    Env → Job → String → String → Option DeliveryAttempt → Tx (Unit {0})
deliver_if_found env job provider code none = raise no_rows
deliver_if_found env job provider code (some d) =
    if is_issued d.status then pure tt else deliver env job provider code

-- `MarkDelivered`: a second report of a delivered attempt changes nothing.
unfoldable pub mark_delivered : Env → Job → String → String → Tx (Unit {0})
mark_delivered env job provider code db =
    deliver_if_found env job provider code (attempt_by_id job.delivery_id db) db

unfoldable pub failed_attempt :
    Env → DeliveryStatus → String → ℕ → DeliveryAttempt → DeliveryAttempt
failed_attempt env status message retry_delay d = record d {
  status = status;
  error = some message;
  next_attempt_at = some (env.now + retry_delay);
  locked_at = none;
  updated_at = env.now;
}

unfoldable pub failed_order : Env → OrderStatus → String → Order → Order
failed_order env status message o = record o {
  status = status;
  last_error = some message;
  updated_at = env.now;
}

unfoldable pub mark_order_failed : Env → ℕ → OrderStatus → String → Db → Db
mark_order_failed env id status message =
    update_order id (λ o. is_delivering o.status) (failed_order env status message)

unfoldable pub mark_recoverable_failure :
    Env → Job → DeliveryStatus → OrderStatus → String → ℕ → Tx (Unit {0})
mark_recoverable_failure env job delivery_status order_status message retry_delay = do
  update_processing job.delivery_id (failed_attempt env delivery_status message retry_delay)
  exec (mark_order_failed env job.order_id order_status message)

unfoldable pub mark_out_of_stock : Env → Job → String → ℕ → Tx (Unit {0})
mark_out_of_stock env job =
    mark_recoverable_failure env job DeliveryStatus.out_of_stock OrderStatus.out_of_stock

unfoldable pub mark_failed : Env → Job → String → ℕ → Tx (Unit {0})
mark_failed env job =
    mark_recoverable_failure env job DeliveryStatus.failed OrderStatus.delivery_failed

-- ===== src/Order/Payment.antt =====
-- internal/order/repository.go: `applyPaymentToOrder` and what it calls.
use digital_store.Prelude.{
  ℕ, str_eq, int_eq, if◌then◌else◌, coalesce, Bool, not, ◌&&◌, ◌||◌, String, none, some, any_where,
  update_where, ℤ, ◌==◌,
}
use digital_store.Model.{
  Db, Order, LedgerEntry, DeliveryAttempt, OrderStatus, DeliveryStatus, EntryType, is_created,
  is_recoverable, is_retryable, is_payment, Tx, Env, Platform, exec, has_order, raise, ◌>>◌,
  unsupported_payment_status, update_order, update_attempt_of, insert_attempt, add_ledger_entry,
  foreign_key_violation,
}

unfoldable pub paid_row : Env → Order → Order
paid_row env o = record o {
  status = OrderStatus.paid;
  paid_at = some (coalesce o.paid_at env.now);
  last_error = none;
  updated_at = env.now;
}

-- `case model.OrderCreated`
unfoldable pub mark_created_paid : Env → ℕ → Db → Db
mark_created_paid env id = update_order id (λ o. is_created o.status) (paid_row env)

-- `case model.OrderOutOfStock, model.OrderDeliveryFailed`
unfoldable pub recover_paid : Env → ℕ → Db → Db
recover_paid env id = update_order id (λ o. is_recoverable o.status) (paid_row env)

unfoldable pub mark_payment_processed : Env → String → Db → Db
mark_payment_processed env event_id db = record db {
  payment_events =
      update_where (λ e. str_eq e.event_id event_id) (λ e. record e { processed_at = some env.now })
        db.payment_events;
}

-- `ON CONFLICT (order_id) DO UPDATE`: an attempt that failed is queued again, any other is kept.
unfoldable pub restored_row : Env → DeliveryAttempt → DeliveryAttempt
restored_row env d = record d {
  status = if is_retryable d.status then DeliveryStatus.pending else d.status;
  next_attempt_at = if is_retryable d.status then some env.now else d.next_attempt_at;
  error = if is_retryable d.status then none else d.error;
  updated_at = env.now;
}

unfoldable pub restore_attempt : Env → ℕ → Db → Db
restore_attempt env id = update_attempt_of id (λ d. Bool.true) (restored_row env)

unfoldable pub upsert_attempt : Platform → Env → ℕ → Tx (Unit {0})
upsert_attempt plat env id db =
    if any_where (λ d. d.order_id == id) db.delivery_attempts
    then exec (restore_attempt env id) db
    else insert_attempt plat env id db

unfoldable pub payment_row : Env → ℕ → ℤ → String → LedgerEntry
payment_row env id amount currency = record {
  order_id = id;
  entry_type = EntryType.payment;
  amount_minor = amount;
  currency = currency;
  created_at = env.now;
}

-- `INSERT INTO ledger_entries … ON CONFLICT DO NOTHING`, under the unique index on payments.
unfoldable pub insert_payment_entry : Env → ℕ → ℤ → String → Tx (Unit {0})
insert_payment_entry env id amount currency db =
    if any_where (λ l. (l.order_id == id) && is_payment l.entry_type) db.ledger_entries
    then exec (λ x. x) db
    else if has_order id db
    then exec (add_ledger_entry (payment_row env id amount currency)) db
    else raise foreign_key_violation db

-- What follows the switch of `applyPaidEvent`.
unfoldable pub queue_delivery : Platform → Env → ℕ → ℤ → String → String → Tx (Unit {0})
queue_delivery plat env id amount currency event_id = do
  upsert_attempt plat env id
  insert_payment_entry env id amount currency
  exec (mark_payment_processed env event_id)

unfoldable pub apply_paid_event :
    Platform → Env → ℕ → OrderStatus → ℤ → String → String → Tx (Unit {0})
apply_paid_event plat env id OrderStatus.delivered amount currency event_id =
    exec (mark_payment_processed env event_id)
apply_paid_event plat env id OrderStatus.payment_failed amount currency event_id =
    exec (mark_payment_processed env event_id)
apply_paid_event plat env id OrderStatus.created amount currency event_id = do
  exec (mark_created_paid env id)
  queue_delivery plat env id amount currency event_id
apply_paid_event plat env id OrderStatus.out_of_stock amount currency event_id = do
  exec (recover_paid env id)
  queue_delivery plat env id amount currency event_id
apply_paid_event plat env id OrderStatus.delivery_failed amount currency event_id = do
  exec (recover_paid env id)
  queue_delivery plat env id amount currency event_id
apply_paid_event plat env id OrderStatus.paid amount currency event_id =
    queue_delivery plat env id amount currency event_id
apply_paid_event plat env id OrderStatus.delivering amount currency event_id =
    queue_delivery plat env id amount currency event_id

unfoldable pub mark_payment_failed : Env → ℕ → Db → Db
mark_payment_failed env id =
    update_order id (λ o. is_created o.status)
      (λ o. record o { status = OrderStatus.payment_failed; updated_at = env.now })

unfoldable pub apply_failed_event : Env → ℕ → OrderStatus → String → Tx (Unit {0})
apply_failed_event env id OrderStatus.created event_id = do
  exec (mark_payment_failed env id)
  exec (mark_payment_processed env event_id)
apply_failed_event env id _ event_id = exec (mark_payment_processed env event_id)

-- `applyPaymentToOrder`: the status, amount and currency of the order, then those of the event.
unfoldable pub apply_payment_to_order :
    Platform → Env → ℕ → OrderStatus → ℤ → String → String → String → ℤ → String → Tx (Unit {0})
apply_payment_to_order plat env id current amount currency event_id status paid_amount
      paid_currency =
    if not (int_eq paid_amount amount) || not (str_eq paid_currency currency)
    then exec (mark_payment_processed env event_id)
    else if str_eq status "paid"
    then apply_paid_event plat env id current amount currency event_id
    else if str_eq status "failed"
    then apply_failed_event env id current event_id
    else raise (unsupported_payment_status status)

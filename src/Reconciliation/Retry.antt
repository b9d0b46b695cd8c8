-- ===== src/Reconciliation/Retry.antt =====
-- internal/reconciliation/service.go: `RetryDelivery`.
use digital_store.Prelude.{
  ℕ, ◌==◌, if◌then◌else◌, is_some, true, not, ◌||◌, String, Option, none, some, any_where,
}
use digital_store.Model.{
  Db, Order, DeliveryAttempt, OrderStatus, DeliveryStatus, is_created, is_payment_failed,
  is_delivered, is_pending, is_retryable, awaits_delivery, Tx, Env, Platform, exec, pure, raise,
  ◌>>◌, order_not_found, order_not_paid, delivery_running, order_of, attempt_of, update_order,
  update_attempt_of, insert_attempt,
}

-- `RetryResult`
pub record RetryResult : Type 0 where
  pub order_id : ℕ
  pub status : String
  pub message : String

abbrev pub queued : ℕ → String → RetryResult
queued id message = record { order_id = id; status = "queued"; message = message }

abbrev pub already_delivered : ℕ → String → RetryResult
already_delivered id message = record {
  order_id = id;
  status = "already_delivered";
  message = message;
}

unfoldable pub requeued_order : Env → Order → Order
requeued_order env o = record o {
  status = OrderStatus.paid;
  last_error = none;
  updated_at = env.now;
}

-- `prepare order for delivery`: no condition on the status
unfoldable pub prepare_order : Env → ℕ → Db → Db
prepare_order env id = update_order id (λ o. true) (requeued_order env)

-- `prepare existing delivery for retry`
unfoldable pub prepare_waiting_order : Env → ℕ → Db → Db
prepare_waiting_order env id = update_order id (λ o. awaits_delivery o.status) (requeued_order env)

unfoldable pub refreshed_attempt : Env → DeliveryAttempt → DeliveryAttempt
refreshed_attempt env d = record d { next_attempt_at = some env.now; updated_at = env.now }

unfoldable pub refresh_pending : Env → ℕ → Db → Db
refresh_pending env id = update_attempt_of id (λ d. is_pending d.status) (refreshed_attempt env)

unfoldable pub requeued_attempt : Env → DeliveryAttempt → DeliveryAttempt
requeued_attempt env d = record d {
  status = DeliveryStatus.pending;
  error = none;
  next_attempt_at = some env.now;
  locked_at = none;
  updated_at = env.now;
}

unfoldable pub requeue_attempt : Env → ℕ → Db → Db
requeue_attempt env id = update_attempt_of id (λ d. is_retryable d.status) (requeued_attempt env)

-- `INSERT … ON CONFLICT (order_id) DO NOTHING`
unfoldable pub insert_missing_attempt : Platform → Env → ℕ → Tx (Unit {0})
insert_missing_attempt plat env id db =
    if any_where (λ d. d.order_id == id) db.delivery_attempts
    then pure tt db
    else insert_attempt plat env id db

unfoldable pub create_missing : Platform → Env → ℕ → Tx RetryResult
create_missing plat env id = do
  insert_missing_attempt plat env id
  exec (prepare_order env id)
  pure (queued id "missing delivery job was created")

-- The switch over the status of the attempt.
unfoldable pub retry_attempt : Env → ℕ → DeliveryStatus → Tx RetryResult
retry_attempt env id DeliveryStatus.delivered =
    pure (already_delivered id "delivery attempt is already completed")
retry_attempt env id DeliveryStatus.processing = raise delivery_running
retry_attempt env id DeliveryStatus.pending = do
  exec (refresh_pending env id)
  exec (prepare_waiting_order env id)
  pure (queued id "delivery was safely queued")
retry_attempt env id DeliveryStatus.failed = do
  exec (requeue_attempt env id)
  exec (prepare_waiting_order env id)
  pure (queued id "delivery was safely queued")
retry_attempt env id DeliveryStatus.out_of_stock = do
  exec (requeue_attempt env id)
  exec (prepare_waiting_order env id)
  pure (queued id "delivery was safely queued")

unfoldable pub retry_if_attempt : Platform → Env → ℕ → Option DeliveryAttempt → Tx RetryResult
retry_if_attempt plat env id none = create_missing plat env id
retry_if_attempt plat env id (some d) = retry_attempt env id d.status

unfoldable pub retry_paid : Platform → Env → ℕ → Tx RetryResult
retry_paid plat env id db = retry_if_attempt plat env id (attempt_of id db) db

unfoldable pub retry_order : Platform → Env → ℕ → Option Order → Tx RetryResult
retry_order plat env id none = raise order_not_found
retry_order plat env id (some o) =
    if is_delivered o.status
    then pure (already_delivered id "order is already delivered")
    else if not (is_some o.paid_at) || is_created o.status || is_payment_failed o.status
    then raise order_not_paid
    else retry_paid plat env id

unfoldable pub retry_delivery : Platform → Env → ℕ → Tx RetryResult
retry_delivery plat env id db = retry_order plat env id (order_of id db) db

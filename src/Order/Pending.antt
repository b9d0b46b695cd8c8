-- ===== src/Order/Pending.antt =====
-- internal/order/repository.go: `applyPendingPayments`, the events that arrived before the order.
use digital_store.Prelude.{
  ℕ, ltb, ◌==◌, Bool, not, ◌&&◌, ◌||◌, String, Option, none, some, List, [], ◌∷◌, is_some, ℤ,
  select_where, sort_by,
}
use digital_store.Model.{
  Db, PaymentEvent, Order, Tx, Env, Platform, gets, pure, raise, ◌>>=◌, ◌>>◌, no_rows, order_of,
}
use digital_store.Order.Payment.{apply_payment_to_order}

-- `ORDER BY received_at ASC, event_id ASC`
unfoldable pub received_before : Platform → PaymentEvent → PaymentEvent → Bool
received_before plat a b =
    ltb a.received_at b.received_at
    || ((a.received_at == b.received_at) && plat.text_le a.event_id b.event_id)

unfoldable pub pending_events : Platform → ℕ → Db → List PaymentEvent
pending_events plat order_id db =
    sort_by (received_before plat) (
      select_where (λ e. (e.order_id == order_id) && not (is_some e.processed_at))
        db.payment_events)

unfoldable pub apply_if_locked :
    Platform → Env → ℕ → ℤ → String → PaymentEvent → Option Order → Tx (Unit {0})
apply_if_locked plat env order_id amount currency e none = raise no_rows
apply_if_locked plat env order_id amount currency e (some o) =
    apply_payment_to_order plat env order_id o.status amount currency e.event_id e.status
      e.amount_minor e.currency

-- `SELECT status FROM orders WHERE id = $1 FOR UPDATE`, which must find the order, and the event.
unfoldable pub apply_pending_event : Platform → Env → ℕ → ℤ → String → PaymentEvent → Tx (Unit {0})
apply_pending_event plat env order_id amount currency e db =
    apply_if_locked plat env order_id amount currency e (order_of order_id db) db

-- the loop `for _, pending := range events`
unfoldable pub apply_events : Platform → Env → ℕ → ℤ → String → List PaymentEvent → Tx (Unit {0})
apply_events plat env order_id amount currency [] = pure tt
apply_events plat env order_id amount currency (e ∷ es) = do
  apply_pending_event plat env order_id amount currency e
  apply_events plat env order_id amount currency es

unfoldable pub apply_pending_payments : Platform → Env → ℕ → ℤ → String → Tx (Unit {0})
apply_pending_payments plat env order_id amount currency = do
  events ← gets (pending_events plat order_id)
  apply_events plat env order_id amount currency events

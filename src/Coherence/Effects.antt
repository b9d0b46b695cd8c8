-- ===== src/Coherence/Effects.antt =====
-- The first payment of an order.
use mathlib.Core.Option
use digital_store.Prelude.{
  ℕ, str_eq, int_eq, is_negative, true, false, String, some, ◌≡◌, ap, ◌∙◌, arith,
}
use digital_store.Model.{
  Db, Order, PaymentWebhook, OrderStatus, DeliveryStatus, Env, Platform, ok, order_of, attempt_of,
  payment_entries, is_taken, pending_attempt,
}
use digital_store.Model.View.{view}
use digital_store.Order.{is_storable, has_event, process_payment}
use digital_store.Coherence.Invariant.{Memory, Coherent, order_status, attempt_for, one_if, is_paid}
use digital_store.Coherence.Orders.{mismatches}
use digital_store.Coherence.Settles.{settled_status, process_payment-settles}

module _ (plat : Platform) (env : Env) (event : PaymentWebhook) (payload : String) (id : ℕ)
    {known : ℕ → Memory} {db : Db} (c : Coherent known db) (o : Order)
    (parsed : plat.parse event.order_id ≡ some id) (found : order_of id db ≡ some o) where
  -- The first payment of a created order, with the order's amount and currency, commits: the order is
  -- paid, its delivery is pending and the ledger has one payment. The order is in a coherent database
  -- that has not received the event, the columns take the event, and the id and request id of the new attempt are not taken.
  process_payment-paid :
      o.status ≡ OrderStatus.created
      → int_eq event.amount o.amount_minor ≡ true
      → str_eq event.currency o.currency ≡ true
      → str_eq event.status "paid" ≡ true
      → is_negative event.amount ≡ false
      → has_event event.event_id db ≡ false
      → is_storable plat event payload ≡ true
      → is_taken (pending_attempt plat env id) db ≡ false
      → (db' : Db) × (process_payment plat env event payload db ≡ ok (tt, db'))
        × (order_status (view id db') ≡ some OrderStatus.paid)
        × (Option.map (λ d. d.status) (attempt_of id db') ≡ some DeliveryStatus.pending)
        × (payment_entries id db' ≡ 1)
  process_payment-paid s a k p n e w t =
      let (db', commits, others, status, attempt, payments) =
        process_payment-settles plat env event payload id c o parsed found w (ground (arith, p)) n e
          (λ _. t) in
      let paid : settled_status (mismatches o.amount_minor o.currency event.amount event.currency)
            (str_eq event.status "paid") o.status
          ≡ OrderStatus.paid =
        ground (arith, s, a, k, p) in
      (
        db',
        commits,
        status ∙ ap some paid,
        attempt ∙ ap (λ s. attempt_for (some s)) paid,
        payments ∙ ap (λ s. one_if (is_paid s)) paid,
      )

-- ===== src/Coherence/Settles.antt =====
-- What a payment event does to its order, on every branch of applyPaymentToOrder.
use mathlib.Core.Option
use digital_store.Prelude.{
  ℕ, ◌==◌, str_eq, is_negative, if◌then◌else◌, Bool, true, false, ◌||◌, String, some, option_any,
  ◌≡◌, refl, ap, ◌∙◌, sym, arith, any_where,
}
use digital_store.Model.{
  Db, Order, PaymentWebhook, OrderStatus, is_created, is_recoverable, Env, Platform, ok, order_of,
  attempt_of, payment_entries, delivery_entries, is_taken, pending_attempt,
}
use digital_store.Model.View.{View, view, on}
use digital_store.Order.{
  has_event, add_event, event_row, is_storable, check_event, apply_if_found, apply_to_locked,
  process_payment,
}
use digital_store.Order.Payment.{paid_row}
use digital_store.Coherence.Invariant.{Memory, Coherent, order_status, is_paid, one_if, attempt_for}
use digital_store.Coherence.Keeps.{of_OnOk}
use digital_store.Coherence.Orders.{
  mismatches, event_of, apply_if_found-Acts, process_payment-Coherent,
}
use digital_store.Coherence.Commits.{on_itself}
use digital_store.Coherence.Payable.{process_payment-Commits}

-- The status that an event gives an order: one that does not fit the order gives none; a payment
-- makes a created order paid and queues one whose delivery failed, and a failed payment ends a
-- created order.
abbrev pub settled_status : (mismatch paid : Bool) → OrderStatus → OrderStatus
settled_status mismatch paid s =
    if mismatch
    then s
    else if paid
    then (if is_created s || is_recoverable s then OrderStatus.paid else s)
    else if is_created s
    then OrderStatus.payment_failed
    else s

event_of-status :
    (plat : Platform) (env : Env) (id : ℕ) (event : PaymentWebhook) (o : Order) (v : View)
    → v.order ≡ some o
    → order_status (event_of plat env id event o v)
      ≡ some (
          settled_status
            (mismatches o.amount_minor o.currency event.amount event.currency)
            (str_eq event.status "paid")
            o.status)
unfolding paid_row is_recoverable
event_of-status plat env id event o v e = ground (arith, e)

module _ (plat : Platform) (env : Env) (event : PaymentWebhook) (payload : String) (id : ℕ)
    {known : ℕ → Memory} {db : Db} (c : Coherent known db) (o : Order)
    (parsed : plat.parse event.order_id ≡ some id) (found : order_of id db ≡ some o)
    (storable : is_storable plat event payload ≡ true)
    (known_status : (str_eq event.status "paid" || str_eq event.status "failed") ≡ true)
    (sign : is_negative event.amount ≡ false) (new : has_event event.event_id db ≡ false)
    (free : any_where (λ d. d.order_id == id) db.delivery_attempts ≡ false
      → is_taken (pending_attempt plat env id) db ≡ false) where
  process_payment-new :
      process_payment plat env event payload db
      ≡ apply_if_found plat env id event (some o) (add_event (event_row env id event payload) db)
  unfolding process_payment check_event apply_to_locked add_event order_of
  process_payment-new = ground (arith, storable, parsed, known_status, sign, new, found)

  add_event-view : (k : ℕ) → view k (add_event (event_row env id event payload) db) ≡ view k db
  unfolding add_event order_of attempt_of payment_entries delivery_entries
  add_event-view k = refl

  -- A payment event commits, changes its own order only, and gives that order the status that the
  -- event calls for; its delivery attempt has the status that goes with that, and the ledger has one
  -- payment of it where the status is a paid one, and none else. The event is new, its status is known and its amount not negative; its order is in a
  -- coherent database, and the first attempt, if there is none yet, takes no id that is in use.
  pub process_payment-settles :
      (db' : Db) × (process_payment plat env event payload db ≡ ok (tt, db'))
      × ((k : ℕ) → (id == k) ≡ false → view k db' ≡ view k db)
      × (order_status (view id db')
          ≡ some (
              settled_status
                (mismatches o.amount_minor o.currency event.amount event.currency)
                (str_eq event.status "paid")
                o.status))
      × (Option.map (λ d. d.status) (attempt_of id db')
          ≡ attempt_for (
              some (
                settled_status
                  (mismatches o.amount_minor o.currency event.amount event.currency)
                  (str_eq event.status "paid")
                  o.status)))
      × (payment_entries id db'
          ≡ one_if (
              is_paid (
                settled_status
                  (mismatches o.amount_minor o.currency event.amount event.currency)
                  (str_eq event.status "paid")
                  o.status)))
  process_payment-settles =
      let run =
        process_payment-Commits plat env id event payload db storable parsed known_status sign
          free in
      let db' = run.committed in
      let coupled =
        (of_OnOk (process_payment-Coherent plat env event payload db c) run.commits).coupled id in
      let acted : (k : ℕ) → view k db' ≡ on id k (event_of plat env id event o) (view k db) = λ k.
        of_OnOk
          ((apply_if_found-Acts plat env id event (some o)).at
            (add_event (event_row env id event payload) db) k)
          (sym process_payment-new ∙ run.commits)
        ∙ ap (on id k (event_of plat env id event o)) (add_event-view k) in
      let status =
        ap order_status (acted id ∙ on_itself id (event_of plat env id event o) (view id db))
        ∙ event_of-status plat env id event o (view id db) found in
      (
        db',
        run.commits,
        λ k other.
            acted k
            ∙ ap (λ b. if b then event_of plat env id event o (view k db) else view k db) other,
        status,
        coupled.attempt_status ∙ ap attempt_for status,
        coupled.payments ∙ ap (λ s. one_if (option_any is_paid s)) status,
      )

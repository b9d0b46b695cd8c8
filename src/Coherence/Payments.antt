-- ===== src/Coherence/Payments.antt =====
-- Payments keep the database coherent: the parts of `applyPaymentToOrder` act on one order, and
-- each takes a coupled view to a coupled view.
use digital_store.Prelude.{
  ℕ, suc, ◌==◌, if◌then◌else◌, Bool, true, String, ℤ, Option, none, some, ◌≡◌, refl, arith,
}
use digital_store.Model.{
  Order, DeliveryAttempt, OrderStatus, is_created, is_recoverable, Env, Platform, exec, attempt_of,
  order_of, pending_attempt, update_order, payment_entries, delivery_entries,
}
use digital_store.Model.View.{
  View, map_order, view-update_order, view-update_attempt_of, view-add_ledger_entry,
  any_where-attempt_of, any_where-payment_entries,
}
use digital_store.Order.Payment.{
  paid_row, mark_created_paid, recover_paid, mark_payment_processed, restored_row, restore_attempt,
  upsert_attempt, payment_row, insert_payment_entry, queue_delivery, apply_paid_event,
}
use digital_store.Coherence.Invariant.{Memory, Tabled, Coupled}
use digital_store.Coherence.Keeps.{Keeps, Keeps-bind, Keeps-exec}
use digital_store.Coherence.Acts.{Acts, Acts-exec, Acts-bind}
use digital_store.Coherence.Statements.{
  insert_attempt-view, insert_attempt-Tabled, update_order-Tabled, update_attempt_of-Tabled,
  add_ledger_entry-Tabled,
}

abbrev pub restored_or_new : Platform → Env → ℕ → Option DeliveryAttempt → DeliveryAttempt
restored_or_new plat env id none = pending_attempt plat env id
restored_or_new plat env id (some d) = restored_row env d

abbrev pub upsert_view : Platform → Env → ℕ → View → View
upsert_view plat env id v = record v { attempt = some (restored_or_new plat env id v.attempt) }

abbrev pub entry_view : View → View
entry_view v = record v { payments = if v.payments == 0 then suc v.payments else v.payments }

abbrev pub id_view : View → View
id_view v = v

module _ (plat : Platform) (env : Env) (id : ℕ) where
  upsert_attempt-Acts : Acts id (upsert_view plat env id) (upsert_attempt plat env id)
  unfolding upsert_attempt restore_attempt restored_row
  upsert_attempt-Acts = record {
    at = λ db k. ground (
      arith,
      any_where-attempt_of id db,
      insert_attempt-view plat env id db k,
      view-update_attempt_of k id db (λ d. true) (restored_row env) (λ d. refl),
    );
  }

  upsert_attempt-Tabled : Keeps Tabled (upsert_attempt plat env id)
  unfolding upsert_attempt restore_attempt restored_row
  upsert_attempt-Tabled = record {
    at = λ db h. ground (
      arith,
      insert_attempt-Tabled plat env id db h,
      update_attempt_of-Tabled h id (λ d. true) (restored_row env) (λ d. refl) (λ d. refl),
    );
  }

  module _ (amount : ℤ) (currency : String) where
    insert_payment_entry-Acts : Acts id entry_view (insert_payment_entry env id amount currency)
    unfolding insert_payment_entry payment_row
    insert_payment_entry-Acts = record {
      at = λ db k. ground (
        arith,
        any_where-payment_entries id db,
        view-add_ledger_entry k db (payment_row env id amount currency),
      );
    }

    insert_payment_entry-Tabled : Keeps Tabled (insert_payment_entry env id amount currency)
    unfolding insert_payment_entry payment_row
    insert_payment_entry-Tabled = record {
      at = λ db h.
          ground (arith, add_ledger_entry-Tabled h (payment_row env id amount currency) refl);
    }

pub mark_payment_processed-Acts :
    (env : Env) (id : ℕ) (event_id : String)
    → Acts id id_view (exec (mark_payment_processed env event_id))
unfolding mark_payment_processed attempt_of order_of payment_entries delivery_entries
mark_payment_processed-Acts env id event_id = Acts-exec id_view _ (λ db k. ground arith)

pub mark_payment_processed-Tabled :
    (env : Env) (event_id : String) → Keeps Tabled (exec (mark_payment_processed env event_id))
unfolding mark_payment_processed
mark_payment_processed-Tabled env event_id = Keeps-exec _ (λ db h. ground arith)

abbrev pub queue_view : Platform → Env → ℕ → View → View
queue_view plat env id v = entry_view (upsert_view plat env id v)

module _ (plat : Platform) (env : Env) (id : ℕ) (amount : ℤ) (currency event_id : String) where
  queue_delivery-Acts :
      Acts id (queue_view plat env id) (queue_delivery plat env id amount currency event_id)
  unfolding queue_delivery
  queue_delivery-Acts =
      Acts-bind (upsert_view plat env id) entry_view _ _ (upsert_attempt-Acts plat env id) λ _.
        Acts-bind entry_view id_view _ _ (insert_payment_entry-Acts plat env id amount currency)
          λ _. mark_payment_processed-Acts env id event_id

  queue_delivery-Tabled : Keeps Tabled (queue_delivery plat env id amount currency event_id)
  unfolding queue_delivery
  queue_delivery-Tabled = Keeps-bind _ _ (upsert_attempt-Tabled plat env id) λ _.
      Keeps-bind _ _ (insert_payment_entry-Tabled plat env id amount currency)
        λ _. mark_payment_processed-Tabled env event_id

-- What a payment does to an order, under the status that the order has.
abbrev pub paid_view : Platform → Env → ℕ → OrderStatus → View → View
paid_view plat env id OrderStatus.delivered v = v
paid_view plat env id OrderStatus.payment_failed v = v
paid_view plat env id OrderStatus.created v =
    queue_view plat env id (map_order (λ o. is_created o.status) (paid_row env) v)
paid_view plat env id OrderStatus.out_of_stock v =
    queue_view plat env id (map_order (λ o. is_recoverable o.status) (paid_row env) v)
paid_view plat env id OrderStatus.delivery_failed v =
    queue_view plat env id (map_order (λ o. is_recoverable o.status) (paid_row env) v)
paid_view plat env id OrderStatus.paid v = queue_view plat env id v
paid_view plat env id OrderStatus.delivering v = queue_view plat env id v

module _ (env : Env) (id : ℕ) where
  pay-Acts :
      (p : Order → Bool)
      → Acts id (map_order p (paid_row env)) (exec (update_order id p (paid_row env)))
  unfolding paid_row
  pay-Acts p = Acts-exec _ _ (λ db k. view-update_order k id db p (paid_row env) (λ o. refl))

  pay-Tabled : (p : Order → Bool) → Keeps Tabled (exec (update_order id p (paid_row env)))
  unfolding paid_row
  pay-Tabled p = Keeps-exec _ (λ db h. update_order-Tabled h id p (paid_row env) (λ o. refl))

module _ (plat : Platform) (env : Env) (id : ℕ) (amount : ℤ) (currency event_id : String) where
  pub apply_paid_event-Acts :
      (s : OrderStatus)
      → Acts id (paid_view plat env id s) (apply_paid_event plat env id s amount currency event_id)
  unfolding apply_paid_event mark_created_paid recover_paid
  apply_paid_event-Acts OrderStatus.delivered = mark_payment_processed-Acts env id event_id
  apply_paid_event-Acts OrderStatus.payment_failed = mark_payment_processed-Acts env id event_id
  apply_paid_event-Acts OrderStatus.created =
      Acts-bind _ (queue_view plat env id) _ _ (pay-Acts env id _)
        (λ _. queue_delivery-Acts plat env id amount currency event_id)
  apply_paid_event-Acts OrderStatus.out_of_stock =
      Acts-bind _ (queue_view plat env id) _ _ (pay-Acts env id _)
        (λ _. queue_delivery-Acts plat env id amount currency event_id)
  apply_paid_event-Acts OrderStatus.delivery_failed =
      Acts-bind _ (queue_view plat env id) _ _ (pay-Acts env id _)
        (λ _. queue_delivery-Acts plat env id amount currency event_id)
  apply_paid_event-Acts _ = queue_delivery-Acts plat env id amount currency event_id

  pub apply_paid_event-Tabled :
      (s : OrderStatus) → Keeps Tabled (apply_paid_event plat env id s amount currency event_id)
  unfolding apply_paid_event mark_created_paid recover_paid
  apply_paid_event-Tabled OrderStatus.delivered = mark_payment_processed-Tabled env event_id
  apply_paid_event-Tabled OrderStatus.payment_failed = mark_payment_processed-Tabled env event_id
  apply_paid_event-Tabled OrderStatus.created =
      Keeps-bind _ _ (pay-Tabled env id _)
        (λ _. queue_delivery-Tabled plat env id amount currency event_id)
  apply_paid_event-Tabled OrderStatus.out_of_stock =
      Keeps-bind _ _ (pay-Tabled env id _)
        (λ _. queue_delivery-Tabled plat env id amount currency event_id)
  apply_paid_event-Tabled OrderStatus.delivery_failed =
      Keeps-bind _ _ (pay-Tabled env id _)
        (λ _. queue_delivery-Tabled plat env id amount currency event_id)
  apply_paid_event-Tabled _ = queue_delivery-Tabled plat env id amount currency event_id

-- A payment takes a coupled view to a coupled view, on every status.
pub paid_view-Coupled :
    (plat : Platform) (env : Env) (id : ℕ) {n : Memory} (o : Order) (v : View)
    → v.order ≡ some o
    → Coupled n v
    → Coupled n (paid_view plat env id o.status v)
unfolding paid_row pending_attempt restored_row is_recoverable
paid_view-Coupled plat env id o v e c = ground arith

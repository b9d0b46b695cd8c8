-- ===== src/Coherence/Duplicates.antt =====
-- A payment event and a delivery report are applied once: a second one changes nothing.
use digital_store.Prelude.{
  find_where-update_key, any_where-count_where, any_where-UniqueBy, ℕ, str_eq, if◌then◌else◌, Bool,
  true, false, String, ℤ, Option, none, some, ◌≡◌, refl, ◌∙◌, arith, any_where,
  any_where-update_where,
}
use digital_store.Model.{
  update_attempts, attempt_by_id, is_processing, pure, Db, Order, PaymentWebhook, OrderStatus, Env,
  Platform, ok, err, invalid_value, exec, gets, ◌>>◌, parse_uuid, order_of, update_order,
  update_attempt_of, add_ledger_entry, insert_attempt, add_attempt,
}
use digital_store.Order.{
  has_event, add_event, event_row, is_storable, check_event, apply_if_found, apply_to_locked,
  process_payment,
}
use digital_store.Order.Payment.{
  mark_payment_processed, mark_created_paid, recover_paid, restore_attempt, upsert_attempt,
  insert_payment_entry, queue_delivery, apply_paid_event, mark_payment_failed, apply_failed_event,
  apply_payment_to_order,
}
use text.Mathlib.TextEquality.{eq_iff}
use digital_store.Delivery.Repository.Claim.{Job}
use digital_store.Delivery.Repository.Report.{
  mark_delivered, deliver_if_found, deliver, update_processing, mark_order_delivered,
  delivered_attempt, insert_delivery_entry, is_processing_row,
}
use digital_store.Coherence.Invariant.{Keyed}
use digital_store.Coherence.Keeps.{
  OnOk-bind, OnOk-any, OnOk-ok, Keeps, OnOk, of_OnOk, Keeps-pure, Keeps-raise, Keeps-exec, Keeps-if,
  Keeps-bind,
}

module _ (seen : String) where
  -- The event has been received.
  record Received (db : Db) : Type 0 where
    received : has_event seen db ≡ true

  processed-Received :
      (env : Env) (event_id : String) → Keeps Received (exec (mark_payment_processed env event_id))
  unfolding mark_payment_processed has_event
  processed-Received env event_id = Keeps-exec _ λ db h. record {
    received =
        any_where-update_where (λ e. str_eq e.event_id seen) (λ e. str_eq e.event_id event_id)
          (λ e. record e { processed_at = some env.now }) db.payment_events (λ e. refl)
        ∙ h.received;
  }

  module _ (plat : Platform) (env : Env) (id : ℕ) where
    upsert_attempt-Received : Keeps Received (upsert_attempt plat env id)
    unfolding upsert_attempt restore_attempt update_attempt_of insert_attempt add_attempt has_event
    upsert_attempt-Received = record { at = λ db h. ground arith }

    module _ (amount : ℤ) (currency event_id : String) where
      insert_payment_entry-Received : Keeps Received (insert_payment_entry env id amount currency)
      unfolding insert_payment_entry add_ledger_entry has_event
      insert_payment_entry-Received = record { at = λ db h. ground arith }

      queue_delivery-Received : Keeps Received (queue_delivery plat env id amount currency event_id)
      unfolding queue_delivery
      queue_delivery-Received =
          Keeps-bind _ _ upsert_attempt-Received
            λ _. Keeps-bind _ _ insert_payment_entry-Received λ _. processed-Received env event_id

      apply_paid_event-Received :
          (s : OrderStatus)
          → Keeps Received (apply_paid_event plat env id s amount currency event_id)
      unfolding apply_paid_event mark_created_paid recover_paid update_order has_event
      apply_paid_event-Received OrderStatus.delivered = processed-Received env event_id
      apply_paid_event-Received OrderStatus.payment_failed = processed-Received env event_id
      apply_paid_event-Received OrderStatus.created =
          Keeps-bind _ _ (Keeps-exec _ (λ db h. record { received = h.received }))
            λ _. queue_delivery-Received
      apply_paid_event-Received OrderStatus.out_of_stock =
          Keeps-bind _ _ (Keeps-exec _ (λ db h. record { received = h.received }))
            λ _. queue_delivery-Received
      apply_paid_event-Received OrderStatus.delivery_failed =
          Keeps-bind _ _ (Keeps-exec _ (λ db h. record { received = h.received }))
            λ _. queue_delivery-Received
      apply_paid_event-Received OrderStatus.paid = queue_delivery-Received
      apply_paid_event-Received OrderStatus.delivering = queue_delivery-Received

    apply_failed_event-Received :
        (event_id : String) (s : OrderStatus)
        → Keeps Received (apply_failed_event env id s event_id)
    unfolding apply_failed_event mark_payment_failed update_order has_event
    apply_failed_event-Received event_id OrderStatus.created =
        Keeps-bind _ _ (Keeps-exec _ (λ db h. record { received = h.received }))
          λ _. processed-Received env event_id
    apply_failed_event-Received event_id _ = processed-Received env event_id

    apply_payment-Received :
        (event_id status : String) (paid_amount : ℤ) (paid_currency : String) (s : OrderStatus)
        (amount : ℤ) (currency : String)
        → Keeps Received (
            apply_payment_to_order plat env id s amount currency event_id status paid_amount
              paid_currency)
    unfolding apply_payment_to_order
    apply_payment-Received event_id status paid_amount paid_currency s amount currency =
        Keeps-if _ _ _ (processed-Received env event_id) (
          Keeps-if _ _ _ (apply_paid_event-Received amount currency event_id s)
            (Keeps-if _ _ _ (apply_failed_event-Received event_id s) (Keeps-raise _)))

    apply_to_locked-Received :
        (event : PaymentWebhook) → Keeps Received (apply_to_locked plat env id event)
    unfolding apply_to_locked apply_if_found
    apply_to_locked-Received event = record { at = λ db h. (found (order_of id db)).at db h }
      where
        found : (r : Option Order) → Keeps Received (apply_if_found plat env id event r)
        found none = Keeps-pure tt
        found (some o) =
            apply_payment-Received event.event_id event.status event.amount event.currency o.status
              o.amount_minor o.currency

add_event-Received :
    (env : Env) (id : ℕ) (event : PaymentWebhook) (payload : String) (db : Db)
    → Received event.event_id (add_event (event_row env id event payload) db)
unfolding add_event event_row has_event any_where
add_event-Received env id event payload db = record {
  received = ground (arith, (eq_iff event.event_id event.event_id).1 refl);
}

process_payment-Received :
    (plat : Platform) (env : Env) (event : PaymentWebhook) (payload : String) (db : Db)
    → OnOk (λ u db'. Received event.event_id db') (process_payment plat env event payload db)
unfolding process_payment
process_payment-Received plat env event payload db =
    OnOk-bind (λ id db'. Unit {0}) _ (parse_uuid plat event.order_id) _ db (OnOk-any _)
      λ id db1 _.
        OnOk-bind (λ u db'. Unit {0}) _ (check_event plat event payload) _ db1 (OnOk-any _)
          λ u db2 _.
            OnOk-bind (λ duplicate db'. has_event event.event_id db' ≡ duplicate) _
              (gets (has_event event.event_id)) _ db2 (OnOk-ok refl)
              λ duplicate db3 e. received duplicate id db3 e
  where
    received :
        (duplicate : Bool) (id : ℕ) (db3 : Db)
        → has_event event.event_id db3 ≡ duplicate
        → OnOk
            (λ u db'. Received event.event_id db')
            ((if duplicate then pure tt else (do
              exec (add_event (event_row env id event payload))
              apply_to_locked plat env id event))
              db3)
    received true id db3 e = OnOk-ok (record { received = e })
    received false id db3 e =
        (apply_to_locked-Received event.event_id plat env id event).at
          (add_event (event_row env id event payload) db3)
          (add_event-Received env id event payload db3)

-- Where `ProcessPayment` has committed an event, the same event again commits and changes nothing,
-- at any later time, with any payload that is JSON; with any other it fails.
pub process_payment-again :
    (plat : Platform) (env later : Env) (event : PaymentWebhook) (payload again : String)
    (db db' : Db)
    → process_payment plat env event payload db ≡ ok (tt, db')
    → process_payment plat later event again db'
      ≡ (if plat.is_jsonb again then ok (tt, db') else err invalid_value)
unfolding process_payment check_event is_storable
process_payment-again plat env later event payload again db db' h =
    let r = of_OnOk (process_payment-Received plat env event payload db) h in
    ground (arith, r.received, h)

-- Where `MarkDelivered` of a job has committed, on tables whose keys hold, a second report of the job
-- commits and changes nothing, whatever provider and code it names.
pub mark_delivered-again :
    (env later : Env) (job : Job) (provider code provider' code' : String) (db db' : Db)
    → Keyed db
    → mark_delivered env job provider code db ≡ ok (tt, db')
    → mark_delivered later job provider' code' db' ≡ ok (tt, db')
unfolding mark_delivered deliver_if_found deliver update_processing mark_order_delivered
    delivered_attempt insert_delivery_entry update_attempts update_order add_ledger_entry
    attempt_by_id
mark_delivered-again env later job provider code provider' code' db db' keyed h = ground (
  arith,
  h,
  find_where-update_key (λ d. d.id) job.delivery_id job.delivery_id (λ d. is_processing d.status)
      (delivered_attempt env provider code) db.delivery_attempts (λ d. refl),
  any_where-count_where (is_processing_row job.delivery_id) db.delivery_attempts,
  any_where-UniqueBy (λ x. x.id) job.delivery_id (λ x. is_processing x.status) db.delivery_attempts
      keyed.attempt_ids,
)

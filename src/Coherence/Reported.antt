-- ===== src/Coherence/Reported.antt =====
-- The updates that the report of a worker makes, and what they do to the view of its order.
use digital_store.Prelude.{
  ℕ, suc, ◌==◌, if◌then◌else◌, is_some, true, ◌&&◌, String, some, ◌≡◌, refl, ap, ◌∙◌, arith,
  Option-cases, inl, inr, ◌⊎◌, count_where, any_where-count_where, any_where-UniqueBy,
}
use digital_store.Model.{
  Db, Order, DeliveryAttempt, OrderStatus, DeliveryStatus, is_processing, is_delivering, Env,
  attempt_of, attempt_by_id, order_of, update_attempts, update_order,
}
use digital_store.Model.View.{
  View, view, on, map_attempt, map_order, order_of-id, view-update_order, view-add_ledger_entry,
  any_where-delivery_entries,
}
use digital_store.Delivery.Repository.Report.{
  is_processing_row, delivered_attempt, delivered_order, delivery_row, insert_delivery_entry,
  failed_attempt, failed_order,
}
use digital_store.Coherence.Invariant.{Memory, Tabled, Coupled, Coherent}
use digital_store.Coherence.Acts.{on-on, Coherent-on}
use digital_store.Coherence.Statements.{
  update_order-Tabled, update_attempts-Tabled, add_ledger_entry-Tabled,
}
use digital_store.Coherence.Attempts.{attempt_by_id-attempt_of, view-update_attempt}

-- `INSERT … SELECT … WHERE NOT EXISTS` on the view of the order.
abbrev pub delivery_view : View → View
delivery_view v = record v {
  deliveries = if is_some v.order && (v.deliveries == 0) then suc v.deliveries else v.deliveries;
}

pub view-insert_delivery_entry :
    (env : Env) (id k : ℕ) (db : Db)
    → view k (insert_delivery_entry env id db) ≡ on id k delivery_view (view k db)
unfolding insert_delivery_entry delivery_row
view-insert_delivery_entry env id k db = elim (Option-cases (order_of id db)) [
  | inl e ↦ ground arith
  | inr (o, e) ↦ ground (
    arith,
    order_of-id id db e,
    any_where-delivery_entries id db,
    view-add_ledger_entry k db (delivery_row env o),
  )
]

pub insert_delivery_entry-Tabled :
    (env : Env) (id : ℕ) (db : Db) → Tabled db → Tabled (insert_delivery_entry env id db)
unfolding insert_delivery_entry delivery_row
insert_delivery_entry-Tabled env id db h = elim (Option-cases (order_of id db)) [
  | inl e ↦ ground arith
  | inr (o, e) ↦ ground (arith, add_ledger_entry-Tabled h (delivery_row env o) refl)
]

pub delivered-Coupled :
    (env : Env) (provider code : String) (d : DeliveryAttempt) {n : Memory} (v : View)
    → v.attempt ≡ some d
    → is_processing d.status ≡ true
    → Coupled n v
    → Coupled n (
        delivery_view (
          map_order
            (λ o. is_delivering o.status)
            (delivered_order env)
            (map_attempt (λ x. is_processing x.status) (delivered_attempt env provider code) v)))
unfolding delivered_order delivered_attempt
delivered-Coupled env provider code d v e p c = ground arith

-- A recoverable failure keeps the statuses of the order and of its attempt together.
pub failed-Coupled :
    (env : Env) (ds : DeliveryStatus) (os : OrderStatus) (message : String) (delay : ℕ) {n : Memory}
    (v : View)
    → (ds ≡ DeliveryStatus.failed) × (os ≡ OrderStatus.delivery_failed)
      ⊎ (ds ≡ DeliveryStatus.out_of_stock) × (os ≡ OrderStatus.out_of_stock)
    → Coupled n v
    → Coupled n (
        map_order
          (λ o. is_delivering o.status)
          (failed_order env os message)
          (map_attempt (λ x. is_processing x.status) (failed_attempt env ds message delay) v))
unfolding failed_order failed_attempt
failed-Coupled env ds os message delay v s c = ground arith

module _ (env : Env) {known : ℕ → Memory} {db : Db} (c : Coherent known db) (o : ℕ)
    (d : DeliveryAttempt) (own : attempt_of o db ≡ some d) where
  -- The row that an update of the worker reaches is the attempt of its order.
  pub processing_own :
      (count_where (is_processing_row d.id) db.delivery_attempts == 1) ≡ true
      → is_processing d.status ≡ true
  unfolding attempt_by_id
  processing_own h = ground (
    arith,
    any_where-count_where (is_processing_row d.id) db.delivery_attempts,
    any_where-UniqueBy (λ x. x.id) d.id (λ x. is_processing x.status) db.delivery_attempts
        c.keyed.attempt_ids,
    attempt_by_id-attempt_of c.keyed o d own,
  )

  -- The two updates of a report: the attempt and then the order.
  module _ (f : DeliveryAttempt → DeliveryAttempt) (g : Order → Order)
      (f_id : (x : DeliveryAttempt) → (f x).id ≡ x.id)
      (f_order : (x : DeliveryAttempt) → (f x).order_id ≡ x.order_id)
      (g_id : (x : Order) → (g x).id ≡ x.id) where
    abbrev pub reported : Db
    reported =
        update_order o (λ x. is_delivering x.status) g
          (update_attempts (is_processing_row d.id) f db)

    abbrev pub report_attempt : View → View
    report_attempt = map_attempt (λ x. is_processing x.status) f

    abbrev pub report_order : View → View
    report_order = map_order (λ x. is_delivering x.status) g

    abbrev pub report_view : View → View
    report_view v = report_order (report_attempt v)

    pub reported-view : (k : ℕ) → view k reported ≡ on o k report_view (view k db)
    reported-view k =
        view-update_order k o _ (λ x. is_delivering x.status) g g_id
        ∙ ap (on o k report_order)
            (view-update_attempt c.keyed k o d (λ x. is_processing x.status) f f_order own)
        ∙ on-on o k report_attempt report_order (view k db)

    pub reported-Tabled : Tabled reported
    reported-Tabled =
        update_order-Tabled (update_attempts-Tabled c.keyed (is_processing_row d.id) f f_id f_order)
          o _ g g_id

    pub reported-Coherent : Coupled (known o) (report_view (view o db)) → Coherent known reported
    reported-Coherent h =
        Coherent-on o report_view c reported-Tabled reported-view h (λ k other. refl)

    abbrev pub settled_view : View → View
    settled_view v = delivery_view (report_view v)

    pub settled-Coherent :
        (env : Env)
        → Coupled (known o) (settled_view (view o db))
        → Coherent known (insert_delivery_entry env o reported)
    settled-Coherent env h =
        Coherent-on o settled_view c (insert_delivery_entry-Tabled env o reported reported-Tabled)
          (λ k.
            view-insert_delivery_entry env o k reported
            ∙ ap (on o k delivery_view) (reported-view k)
            ∙ on-on o k report_view delivery_view (view k db))
          h (λ k other. refl)

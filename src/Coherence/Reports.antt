-- ===== src/Coherence/Reports.antt =====
-- The reports of a worker on its job keep the database coherent, also when the job is no longer
-- the worker's.

use digital_store.Prelude.{ℕ, true, String, some, ◌≡◌, refl, arith, Option-cases, inl, inr, ◌⊎◌}
use digital_store.Model.{
  Db, DeliveryAttempt, OrderStatus, DeliveryStatus, is_processing, Env, attempt_of,
}
use digital_store.Model.View.{view}
use digital_store.Delivery.Repository.Claim.{Job}
use digital_store.Delivery.Repository.Report.{
  delivered_attempt, delivered_order, update_processing, mark_order_delivered,
  insert_delivery_entry, deliver, deliver_if_found, mark_delivered, failed_attempt, failed_order,
  mark_order_failed, mark_recoverable_failure, mark_out_of_stock, mark_failed,
}
use digital_store.Coherence.Invariant.{Memory, Coherent}
use digital_store.Coherence.Keeps.{OnOk}
use digital_store.Coherence.Attempts.{attempt_by_id-attempt_of}
use digital_store.Coherence.Reported.{
  delivered-Coupled, failed-Coupled, processing_own, reported, reported-Coherent, settled-Coherent,
}

-- The attempt that a worker remembers is the attempt of its order.
pub remembered-attempt :
    {known : ℕ → Memory} {db : Db}
    → Coherent known db
    → (o i : ℕ) → (known o).attempt ≡ some i
    → (d : DeliveryAttempt) × (attempt_of o db ≡ some d) × (d.id ≡ i)
remembered-attempt {known} {db} c o i k = elim (Option-cases (attempt_of o db)) [
  | inl e ↦ ground (arith, (c.coupled o).remembered)
  | inr (d, e) ↦ (d, e, ground (arith, (c.coupled o).remembered))
]

module _ (env : Env) {known : ℕ → Memory} {db : Db} (c : Coherent known db) (job : Job)
    (remembered : (known job.order_id).attempt ≡ some job.delivery_id) where
  recoverable_failure-Coherent :
      (ds : DeliveryStatus) (os : OrderStatus) (message : String) (delay : ℕ)
      → (ds ≡ DeliveryStatus.failed) × (os ≡ OrderStatus.delivery_failed)
        ⊎ (ds ≡ DeliveryStatus.out_of_stock) × (os ≡ OrderStatus.out_of_stock)
      → OnOk (λ a db'. Coherent known db') (mark_recoverable_failure env job ds os message delay db)
  unfolding mark_recoverable_failure update_processing mark_order_failed failed_attempt failed_order
  recoverable_failure-Coherent ds os message delay s =
      let (d, own, same) = remembered-attempt c job.order_id job.delivery_id remembered in
      ground (
        arith,
        reported-Coherent env c job.order_id d own (failed_attempt env ds message delay)
            (failed_order env os message) (λ x. refl) (λ x. refl) (λ x. refl)
            (failed-Coupled env ds os message delay (view job.order_id db) s
              (c.coupled job.order_id)),
      )

  -- `MarkOutOfStock` of a worker that remembers its job keeps the database coherent.
  pub mark_out_of_stock-Coherent :
      (message : String) (delay : ℕ)
      → OnOk (λ a db'. Coherent known db') (mark_out_of_stock env job message delay db)
  unfolding mark_out_of_stock
  mark_out_of_stock-Coherent message delay =
      recoverable_failure-Coherent _ _ message delay (inr (refl, refl))

  -- `MarkFailed` of a worker that remembers its job keeps the database coherent.
  pub mark_failed-Coherent :
      (message : String) (delay : ℕ)
      → OnOk (λ a db'. Coherent known db') (mark_failed env job message delay db)
  unfolding mark_failed
  mark_failed-Coherent message delay =
      recoverable_failure-Coherent _ _ message delay (inl (refl, refl))

  -- `MarkDelivered` of a worker that remembers its job keeps the database coherent, also where the
  -- job is no longer the worker's.
  pub mark_delivered-Coherent :
      (provider code : String)
      → OnOk (λ a db'. Coherent known db') (mark_delivered env job provider code db)
  unfolding mark_delivered deliver_if_found deliver update_processing mark_order_delivered
      delivered_attempt delivered_order
  mark_delivered-Coherent provider code =
      let (d, own, same) = remembered-attempt c job.order_id job.delivery_id remembered in
      let done : is_processing d.status ≡ true
          → Coherent known (
              insert_delivery_entry env job.order_id (
                reported env c job.order_id d own (delivered_attempt env provider code)
                  (delivered_order env) (λ x. refl) (λ x. refl) (λ x. refl))) =
        λ h.
          settled-Coherent env c job.order_id d own (delivered_attempt env provider code)
            (delivered_order env) (λ x. refl) (λ x. refl) (λ x. refl) env
            (delivered-Coupled env provider code d (view job.order_id db) own h
              (c.coupled job.order_id)) in
      ground (
        arith,
        attempt_by_id-attempt_of c.keyed job.order_id d own,
        processing_own env c job.order_id d own,
        done,
      )

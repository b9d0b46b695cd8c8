-- ===== src/Coherence/Commits.antt =====
-- A worker that still holds its job can report it, and the report does what it says.
use mathlib.Core.Option
use digital_store.Prelude.{
  ◌+◌, false, Bool, refl, true, ◌==◌, option_any, if◌then◌else◌, ℕ, ◌==◌, if◌then◌else◌, true, ◌&&◌,
  String, some, ◌≡◌, refl, ap, ◌∙◌, arith, count_where,
}
use digital_store.Model.{
  DeliveryStatus, update_attempts, update_order, is_delivering, Db, DeliveryAttempt, OrderStatus,
  DeliveryStatus, is_processing, is_delivering, Env, attempt_of, attempt_by_id, order_of,
  update_attempts, update_order,
}
use digital_store.Model.View.{View, view, on, map_attempt, map_order}
use digital_store.Delivery.Repository.Claim.{Job}
use digital_store.Delivery.Repository.Report.{
  is_processing_row, delivered_attempt, delivered_order, update_processing, mark_order_delivered,
  insert_delivery_entry, deliver, deliver_if_found, mark_delivered, failed_attempt, failed_order,
  mark_order_failed, mark_recoverable_failure, mark_failed, mark_out_of_stock,
}
use digital_store.Coherence.Invariant.{Memory, Coupled, Coherent}
use digital_store.Coherence.Attempts.{attempt_by_id-attempt_of}
use digital_store.Prelude.Rows.{count_where-UniqueBy}
use digital_store.Delivery.Repository.Report.{
  mark_failed, mark_recoverable_failure, mark_order_failed, failed_attempt, failed_order,
  update_processing, mark_order_delivered,
}
use digital_store.Coherence.Reported.{
  delivery_view, view-insert_delivery_entry, reported, reported-view,
}
use digital_store.Coherence.Reports.{remembered-attempt}
use digital_store.Model.{ok, delivery_entries}
use digital_store.Coherence.Invariant.{Memory, order_status, delivered_code}

pub if_true : {A : Type 0} (b : Bool) (m n : A) → b ≡ true → (if b then m else n) ≡ m
if_true true m n h = refl
if_true false m n h = ground arith

pub if_false : {A : Type 0} (b : Bool) (m n : A) → b ≡ false → (if b then m else n) ≡ n
if_false true m n h = ground arith
if_false false m n h = refl

abbrev held_view : Env → String → String → View → View
held_view env provider code v = delivery_view (
    map_order (λ x. is_delivering x.status) (delivered_order env)
      (map_attempt (λ x. is_processing x.status) (delivered_attempt env provider code) v))

on_self :
    (id : ℕ) (env : Env) (provider code : String) (v : View)
    → on id id delivery_view (
        on id id
          (λ w.
            map_order
              (λ x. is_delivering x.status)
              (delivered_order env)
              (map_attempt (λ x. is_processing x.status) (delivered_attempt env provider code) w))
          v)
      ≡ held_view env provider code v
on_self id env provider code v = ground arith

abbrev failed_view : Env → DeliveryStatus → OrderStatus → String → ℕ → View → View
failed_view env ds os message delay v =
    map_order (λ x. is_delivering x.status) (failed_order env os message)
      (map_attempt (λ x. is_processing x.status) (failed_attempt env ds message delay) v)

pub on_itself : (id : ℕ) (f : View → View) (v : View) → on id id f v ≡ f v
on_itself id f v = ground arith

failed-held :
    (env : Env) (ds : DeliveryStatus) (os : OrderStatus) (message : String) (delay : ℕ) {n : Memory}
    (v : View)
    → Coupled n v
    → option_any (λ d. is_processing d.status) v.attempt ≡ true
    → (order_status (failed_view env ds os message delay v) ≡ some os)
      × (Option.map (λ d. d.status) (failed_view env ds os message delay v).attempt ≡ some ds)
      × (Option.map (λ d. d.next_attempt_at) (failed_view env ds os message delay v).attempt
          ≡ some (some (env.now + delay)))
unfolding failed_order failed_attempt
failed-held env ds os message delay v c h = ground arith

-- What a report of a delivery makes of a view whose attempt is processing.
delivered-held :
    (env : Env) (provider code : String) {n : Memory} (v : View)
    → Coupled n v
    → option_any (λ d. is_processing d.status) v.attempt ≡ true
    → (order_status (held_view env provider code v) ≡ some OrderStatus.delivered)
      × (delivered_code (held_view env provider code v) ≡ some code)
      × ((held_view env provider code v).deliveries ≡ 1)
unfolding delivered_order delivered_attempt
delivered-held env provider code v c h = ground arith

module _ (env : Env) {known : ℕ → Memory} {db : Db} (c : Coherent known db) (job : Job)
    (remembered : (known job.order_id).attempt ≡ some job.delivery_id)
    (held : option_any (λ d. is_processing d.status) (attempt_of job.order_id db) ≡ true) where
  -- The two guards of a report hold.
  held_row : (count_where (is_processing_row job.delivery_id) db.delivery_attempts == 1) ≡ true
  unfolding attempt_by_id
  held_row =
      let (d, own, same) = remembered-attempt c job.order_id job.delivery_id remembered in
      ground (
        arith,
        held,
        own,
        same,
        attempt_by_id-attempt_of c.keyed job.order_id d own,
        count_where-UniqueBy (λ x. x.id) job.delivery_id (λ x. is_processing x.status)
            db.delivery_attempts c.keyed.attempt_ids,
      )

  held_order :
      (count_where (λ o. (o.id == job.order_id) && is_delivering o.status) db.orders == 1) ≡ true
  unfolding order_of
  held_order = ground (
    arith,
    held,
    c.coupled job.order_id,
    count_where-UniqueBy (λ x. x.id) job.order_id (λ x. is_delivering x.status) db.orders
        c.keyed.order_ids,
  )

  update_held :
      (f : DeliveryAttempt → DeliveryAttempt)
      → update_processing job.delivery_id f db
        ≡ ok (tt, update_attempts (is_processing_row job.delivery_id) f db)
  unfolding update_processing
  update_held f = if_true _ _ _ held_row

  deliver_held :
      (f : DeliveryAttempt → DeliveryAttempt)
      → mark_order_delivered env job.order_id
          (update_attempts (is_processing_row job.delivery_id) f db)
        ≡ ok (
          tt,
          update_order job.order_id
              (λ o. is_delivering o.status)
              (delivered_order env)
              (update_attempts (is_processing_row job.delivery_id) f db),
        )
  unfolding mark_order_delivered update_attempts
  deliver_held f = if_true _ _ _ held_order

  -- In a coherent database, `MarkDelivered` of a job that the worker remembers and whose attempt is
  -- still processing commits: the order is delivered, its attempt
  -- has the code, and the ledger has one delivery.
  pub mark_delivered-held :
      (provider code : String)
      → (db' : Db) × (mark_delivered env job provider code db ≡ ok (tt, db'))
        × (order_status (view job.order_id db') ≡ some OrderStatus.delivered)
        × (delivered_code (view job.order_id db') ≡ some code)
        × (delivery_entries job.order_id db' ≡ 1)
  unfolding mark_delivered deliver_if_found deliver delivered_attempt delivered_order
  mark_delivered-held provider code =
      let (d, own, same) = remembered-attempt c job.order_id job.delivery_id remembered in
      let r : Db =
        reported env c job.order_id d own (delivered_attempt env provider code)
          (delivered_order env) (λ x. refl) (λ x. refl) (λ x. refl) in
      let seen : view job.order_id (insert_delivery_entry env job.order_id r)
          ≡ held_view env provider code (view job.order_id db) =
        view-insert_delivery_entry env job.order_id job.order_id r
        ∙ ap (on job.order_id job.order_id delivery_view) (
            reported-view env c job.order_id d own (delivered_attempt env provider code)
              (delivered_order env) (λ x. refl) (λ x. refl) (λ x. refl) job.order_id)
        ∙ on_self job.order_id env provider code (view job.order_id db) in
      let (status, kept, entries) =
        delivered-held env provider code (view job.order_id db) (c.coupled job.order_id) held in
      (
        insert_delivery_entry env job.order_id r,
        ground (
          arith,
          same,
          own,
          held,
          update_held (delivered_attempt env provider code),
          deliver_held (delivered_attempt env provider code),
          attempt_by_id-attempt_of c.keyed job.order_id d own,
        ),
        ap order_status seen ∙ status,
        ap delivered_code seen ∙ kept,
        ap (λ v. v.deliveries) seen ∙ entries,
      )

  recoverable_failure-held :
      (ds : DeliveryStatus) (os : OrderStatus) (message : String) (delay : ℕ)
      → (db' : Db) × (mark_recoverable_failure env job ds os message delay db ≡ ok (tt, db'))
        × (order_status (view job.order_id db') ≡ some os)
        × (Option.map (λ d. d.status) (attempt_of job.order_id db') ≡ some ds)
        × (Option.map (λ d. d.next_attempt_at) (attempt_of job.order_id db')
            ≡ some (some (env.now + delay)))
  unfolding mark_recoverable_failure mark_order_failed failed_attempt failed_order
  recoverable_failure-held ds os message delay =
      let (d, own, same) = remembered-attempt c job.order_id job.delivery_id remembered in
      let f = failed_attempt env ds message delay in
      let g = failed_order env os message in
      let r : Db = reported env c job.order_id d own f g (λ x. refl) (λ x. refl) (λ x. refl) in
      let seen : view job.order_id r ≡ failed_view env ds os message delay (view job.order_id db) =
        reported-view env c job.order_id d own f g (λ x. refl) (λ x. refl) (λ x. refl) job.order_id
        ∙ on_itself job.order_id (failed_view env ds os message delay) (view job.order_id db) in
      let (status, failed, due) =
        failed-held env ds os message delay (view job.order_id db) (c.coupled job.order_id) held in
      (
        r,
        ground (arith, same, own, held, update_held f),
        ap order_status seen ∙ status,
        ap (λ v. Option.map (λ x. x.status) v.attempt) seen ∙ failed,
        ap (λ v. Option.map (λ x. x.next_attempt_at) v.attempt) seen ∙ due,
      )

  -- In a coherent database, `MarkFailed` of a job that the worker remembers and whose attempt is
  -- still processing commits: the attempt and its order have failed, and
  -- the job is due again after the delay.
  pub mark_failed-held :
      (message : String) (delay : ℕ)
      → (db' : Db) × (mark_failed env job message delay db ≡ ok (tt, db'))
        × (order_status (view job.order_id db') ≡ some OrderStatus.delivery_failed)
        × (Option.map (λ d. d.status) (attempt_of job.order_id db') ≡ some DeliveryStatus.failed)
        × (Option.map (λ d. d.next_attempt_at) (attempt_of job.order_id db')
            ≡ some (some (env.now + delay)))
  unfolding mark_failed
  mark_failed-held message delay = recoverable_failure-held _ _ message delay

  -- `MarkOutOfStock` of such a job commits likewise, with the statuses of an empty stock.
  pub mark_out_of_stock-held :
      (message : String) (delay : ℕ)
      → (db' : Db) × (mark_out_of_stock env job message delay db ≡ ok (tt, db'))
        × (order_status (view job.order_id db') ≡ some OrderStatus.out_of_stock)
        × (Option.map (λ d. d.status) (attempt_of job.order_id db')
            ≡ some DeliveryStatus.out_of_stock)
        × (Option.map (λ d. d.next_attempt_at) (attempt_of job.order_id db')
            ≡ some (some (env.now + delay)))
  unfolding mark_out_of_stock
  mark_out_of_stock-held message delay = recoverable_failure-held _ _ message delay

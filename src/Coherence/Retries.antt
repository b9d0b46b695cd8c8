-- ===== src/Coherence/Retries.antt =====
-- A retry that an operator asks for keeps the database coherent.
use digital_store.Prelude.{ℕ, Option, none, some, refl, arith}
use digital_store.Model.{
  Db, DeliveryAttempt, DeliveryStatus, is_pending, is_retryable, awaits_delivery, Env, Platform,
  exec, Tx, order_not_found, ◌>>◌, pure, raise, attempt_of,
}
use digital_store.Model.View.{
  View, map_attempt, map_order, view-update_order, view-update_attempt_of,
}
use digital_store.Coherence.Invariant.{Memory, Tabled, Coupled, Coherent}
use digital_store.Coherence.Keeps.{OnOk, Keeps, Keeps-pure, Keeps-bind, Keeps-exec, Keeps-raise}
use digital_store.Coherence.Acts.{Acts, Acts-exec, Acts-pure, Acts-raise, Acts-bind, Keeps-read}
use digital_store.Coherence.Statements.{update_order-Tabled, update_attempt_of-Tabled}
use digital_store.Coherence.Payments.{id_view}
use digital_store.Reconciliation.Retry.{
  requeued_order, prepare_waiting_order, refreshed_attempt, refresh_pending, requeued_attempt,
  requeue_attempt, RetryResult, queued, retry_attempt, retry_if_attempt, retry_paid, retry_order,
  retry_delivery,
}

abbrev ready : Env → View → View
ready env = map_order (λ o. awaits_delivery o.status) (requeued_order env)

-- What a retry does where the attempt has the status.
abbrev retried_view : Env → DeliveryStatus → View → View
retried_view env DeliveryStatus.pending v =
    ready env (map_attempt (λ d. is_pending d.status) (refreshed_attempt env) v)
retried_view env DeliveryStatus.failed v =
    ready env (map_attempt (λ d. is_retryable d.status) (requeued_attempt env) v)
retried_view env DeliveryStatus.out_of_stock v =
    ready env (map_attempt (λ d. is_retryable d.status) (requeued_attempt env) v)
retried_view env _ v = v

module _ (env : Env) (id : ℕ) where
  refresh_pending-Acts :
      Acts id
        (map_attempt (λ d. is_pending d.status) (refreshed_attempt env))
        (exec (refresh_pending env id))
  unfolding refresh_pending refreshed_attempt
  refresh_pending-Acts =
      Acts-exec _ _ (λ db k. view-update_attempt_of k id db _ (refreshed_attempt env) (λ d. refl))

  requeue_attempt-Acts :
      Acts id
        (map_attempt (λ d. is_retryable d.status) (requeued_attempt env))
        (exec (requeue_attempt env id))
  unfolding requeue_attempt requeued_attempt
  requeue_attempt-Acts =
      Acts-exec _ _ (λ db k. view-update_attempt_of k id db _ (requeued_attempt env) (λ d. refl))

  prepare_waiting_order-Acts : Acts id (ready env) (exec (prepare_waiting_order env id))
  unfolding prepare_waiting_order requeued_order
  prepare_waiting_order-Acts =
      Acts-exec _ _ (λ db k. view-update_order k id db _ (requeued_order env) (λ o. refl))

  -- The end of a retry: after `s` on the attempt, the order waits for its delivery again.
  abbrev then_ready : (Db → Db) → Tx RetryResult
  then_ready s = do
    exec s
    exec (prepare_waiting_order env id)
    pure (queued id "delivery was safely queued")

  then_ready-Acts :
      (f : View → View) (s : Db → Db)
      → Acts id f (exec s)
      → Acts id (λ v. ready env (f v)) (then_ready s)
  then_ready-Acts f s h = Acts-bind f (ready env) _ _ h λ _.
      Acts-bind (ready env) id_view _ _ prepare_waiting_order-Acts
        λ _. Acts-pure (queued id "delivery was safely queued")

  then_ready-Tabled :
      (s : Db → Db) → ((db : Db) → Tabled db → Tabled (s db)) → Keeps Tabled (then_ready s)
  unfolding prepare_waiting_order requeued_order
  then_ready-Tabled s h = Keeps-bind _ _ (Keeps-exec s h) λ _.
      Keeps-bind _ _
        (Keeps-exec (prepare_waiting_order env id)
          (λ db k. update_order-Tabled k id _ (requeued_order env) (λ o. refl)))
        λ _. Keeps-pure (queued id "delivery was safely queued")

  refresh_pending-Tabled : (db : Db) → Tabled db → Tabled (refresh_pending env id db)
  unfolding refresh_pending refreshed_attempt
  refresh_pending-Tabled db h =
      update_attempt_of-Tabled h id _ (refreshed_attempt env) (λ d. refl) (λ d. refl)

  requeue_attempt-Tabled : (db : Db) → Tabled db → Tabled (requeue_attempt env id db)
  unfolding requeue_attempt requeued_attempt
  requeue_attempt-Tabled db h =
      update_attempt_of-Tabled h id _ (requeued_attempt env) (λ d. refl) (λ d. refl)

  retry_attempt-Acts : (s : DeliveryStatus) → Acts id (retried_view env s) (retry_attempt env id s)
  unfolding retry_attempt
  retry_attempt-Acts DeliveryStatus.pending = then_ready-Acts _ _ refresh_pending-Acts
  retry_attempt-Acts DeliveryStatus.failed = then_ready-Acts _ _ requeue_attempt-Acts
  retry_attempt-Acts DeliveryStatus.out_of_stock = then_ready-Acts _ _ requeue_attempt-Acts
  retry_attempt-Acts DeliveryStatus.delivered = Acts-pure _
  retry_attempt-Acts DeliveryStatus.processing = Acts-raise _ _

  retry_attempt-Tabled : (s : DeliveryStatus) → Keeps Tabled (retry_attempt env id s)
  unfolding retry_attempt
  retry_attempt-Tabled DeliveryStatus.pending = then_ready-Tabled _ refresh_pending-Tabled
  retry_attempt-Tabled DeliveryStatus.failed = then_ready-Tabled _ requeue_attempt-Tabled
  retry_attempt-Tabled DeliveryStatus.out_of_stock = then_ready-Tabled _ requeue_attempt-Tabled
  retry_attempt-Tabled DeliveryStatus.delivered = Keeps-pure _
  retry_attempt-Tabled DeliveryStatus.processing = Keeps-raise _

  -- A retry of the attempt that the view shows.
  abbrev retry_found : Option DeliveryAttempt → Tx RetryResult
  retry_found none = raise order_not_found
  retry_found (some d) = retry_attempt env id d.status

  abbrev found_view : Option DeliveryAttempt → View → View
  found_view none v = v
  found_view (some d) v = retried_view env d.status v

  found_view-Coupled : (n : Memory) (v : View) → Coupled n v → Coupled n (found_view v.attempt v)
  unfolding requeued_order refreshed_attempt requeued_attempt
  found_view-Coupled n v c = ground arith

  retry_found-Coherent :
      {known : ℕ → Memory} → Keeps (Coherent known) (λ db. retry_found (attempt_of id db) db)
  retry_found-Coherent =
      Keeps-read id (λ v. v.attempt) found_view retry_found acts found_view-Coupled keyed
    where
      acts : (r : Option DeliveryAttempt) → Acts id (found_view r) (retry_found r)
      acts none = Acts-raise _ _
      acts (some d) = retry_attempt-Acts d.status

      keyed : (r : Option DeliveryAttempt) → Keeps Tabled (retry_found r)
      keyed none = Keeps-raise _
      keyed (some d) = retry_attempt-Tabled d.status

pub retry_delivery-Keeps :
    {known : ℕ → Memory} (plat : Platform) (env : Env) (id : ℕ)
    → Keeps (Coherent known) (retry_delivery plat env id)
unfolding retry_delivery retry_order retry_paid retry_if_attempt
retry_delivery-Keeps {known} plat env id = record { at = λ db c. retried db c }
  where
    retried :
        (db : Db)
        → Coherent known db
        → OnOk (λ r db'. Coherent known db') (retry_delivery plat env id db)
    retried db c =
        ground (arith, (retry_found-Coherent env id {known = known}).at db c, c.coupled id)

-- `RetryDelivery` keeps the database coherent with what is remembered of it.
pub retry_delivery-Coherent :
    {known : ℕ → Memory} (plat : Platform) (env : Env) (id : ℕ) (db : Db)
    → Coherent known db
    → OnOk (λ r db'. Coherent known db') (retry_delivery plat env id db)
retry_delivery-Coherent plat env id db c = (retry_delivery-Keeps plat env id).at db c

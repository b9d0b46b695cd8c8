-- ===== src/Delivery/Repository/Claim.antt =====
-- internal/delivery/repository.go: `ClaimNextJob` and `RecoverStaleJobs`.
use digital_store.Prelude.{
  ℕ, ◌+◌, ◌-◌, ltb, leb, ◌==◌, if◌then◌else◌, is_some, option_any, Bool, false, not, ◌&&◌, ◌||◌,
  String, Option, none, some, List, [], ◌∷◌, any_where, count_where, update_where, select_where,
  sort_by,
}
use digital_store.Model.{
  Db, Order, DeliveryAttempt, OrderStatus, DeliveryStatus, awaits_delivery, is_claimable,
  is_processing, is_delivering, Tx, Env, exec, raise, pure, ◌>>◌, not_claimed, order_of,
  update_order, update_attempts,
}

pub record Job : Type 0 where
  pub delivery_id : ℕ
  pub order_id : ℕ
  pub request_id : String
  pub sku : String
  pub attempts : ℕ

-- `next_attempt_at IS NULL OR next_attempt_at <= now()`
unfoldable pub is_due : ℕ → DeliveryAttempt → Bool
is_due now d = not (is_some d.next_attempt_at) || option_any (λ t. leb t now) d.next_attempt_at

-- The WHERE clause over the join with `orders`; `locked` are the rows that other transactions
-- hold, which SKIP LOCKED passes over.
unfoldable pub is_candidate : (ℕ → Bool) → ℕ → Db → DeliveryAttempt → Bool
is_candidate locked now db d =
    is_claimable d.status
    && is_due now d
    && option_any (λ o. awaits_delivery o.status) (order_of d.order_id db)
    && not (locked d.id)

-- `next_attempt_at NULLS FIRST`, then `created_at`
unfoldable pub claimed_before : DeliveryAttempt → DeliveryAttempt → Bool
claimed_before a b = elim a.next_attempt_at [
  | none ↦
      not (is_some b.next_attempt_at) && leb a.created_at b.created_at || is_some b.next_attempt_at
  | some s ↦ elim b.next_attempt_at [
    | none ↦ false
    | some t ↦ ltb s t || ((s == t) && leb a.created_at b.created_at)
  ]
]

unfoldable pub candidates : (ℕ → Bool) → ℕ → Db → List DeliveryAttempt
candidates locked now db =
    sort_by claimed_before (select_where (is_candidate locked now db) db.delivery_attempts)

abbrev pub first_row : List DeliveryAttempt → Option DeliveryAttempt
first_row [] = none
first_row (d ∷ ds) = some d

unfoldable pub next_candidate : (ℕ → Bool) → ℕ → Db → Option DeliveryAttempt
next_candidate locked now db = first_row (candidates locked now db)

unfoldable pub processing_row : Env → DeliveryAttempt → DeliveryAttempt
processing_row env d = record d {
  status = DeliveryStatus.processing;
  attempts = d.attempts + 1;
  locked_at = some env.now;
  updated_at = env.now;
}

abbrev pub is_claimable_row : ℕ → DeliveryAttempt → Bool
is_claimable_row id d = (d.id == id) && is_claimable d.status

unfoldable pub mark_processing : Env → ℕ → Tx (Unit {0})
mark_processing env id db =
    if count_where (is_claimable_row id) db.delivery_attempts == 1
    then exec (update_attempts (is_claimable_row id) (processing_row env)) db
    else raise not_claimed db

unfoldable pub delivering_row : Env → Order → Order
delivering_row env o = record o {
  status = OrderStatus.delivering;
  last_error = none;
  updated_at = env.now;
}

unfoldable pub mark_delivering : Env → ℕ → Db → Db
mark_delivering env id = update_order id (λ o. awaits_delivery o.status) (delivering_row env)

-- `o.sku` of the joined order
unfoldable pub sku_of : ℕ → Db → String
sku_of order_id db = elim (order_of order_id db) [ none ↦ "" | some o ↦ o.sku ]

unfoldable pub claim_attempt : Env → DeliveryAttempt → String → Tx (Option Job)
claim_attempt env d sku = do
  mark_processing env d.id
  exec (mark_delivering env d.order_id)
  pure (
      some (record {
        delivery_id = d.id;
        order_id = d.order_id;
        request_id = d.request_id;
        sku = sku;
        attempts = d.attempts + 1;
      }))

unfoldable pub claim_if_found : Env → Option DeliveryAttempt → Tx (Option Job)
claim_if_found env none db = pure none db
claim_if_found env (some d) db = claim_attempt env d (sku_of d.order_id db) db

-- `ClaimNextJob`; `none` is `false` in the source, an empty queue.
unfoldable pub claim_next_job : (ℕ → Bool) → Env → Tx (Option Job)
claim_next_job locked env db = claim_if_found env (next_candidate locked env.now db) db

-- `status = 'processing' AND locked_at < $1`
unfoldable pub is_stale : ℕ → DeliveryAttempt → Bool
is_stale cutoff d = is_processing d.status && option_any (λ t. ltb t cutoff) d.locked_at

unfoldable pub expired_attempt : Env → DeliveryAttempt → DeliveryAttempt
expired_attempt env d = record d {
  status = DeliveryStatus.failed;
  error = some "worker lease expired";
  next_attempt_at = some env.now;
  locked_at = none;
  updated_at = env.now;
}

unfoldable pub expired_order : Env → Order → Order
expired_order env o = record o {
  status = OrderStatus.delivery_failed;
  last_error = some "worker lease expired";
  updated_at = env.now;
}

-- `o.id = r.order_id AND o.status = 'delivering'`, for an attempt `r` that was recovered
unfoldable pub lost_its_worker : ℕ → Db → Order → Bool
lost_its_worker cutoff db o =
    any_where (λ d. (d.order_id == o.id) && is_stale cutoff d) db.delivery_attempts
    && is_delivering o.status

unfoldable pub expire_leases : Env → ℕ → Db → Db
expire_leases env cutoff db = record db {
  delivery_attempts = update_where (is_stale cutoff) (expired_attempt env) db.delivery_attempts;
  orders = update_where (lost_its_worker cutoff db) (expired_order env) db.orders;
}

-- `RecoverStaleJobs`, with the number of orders that it changed.
unfoldable pub recover_stale_jobs : Env → ℕ → Tx ℕ
recover_stale_jobs env stale_after db =
    let cutoff = env.now - stale_after in
    (do exec (expire_leases env cutoff); pure (count_where (lost_its_worker cutoff db) db.orders))
      db

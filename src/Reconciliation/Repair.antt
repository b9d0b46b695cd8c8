-- ===== src/Reconciliation/Repair.antt =====
-- internal/reconciliation/service.go: `Repair`.
use digital_store.Prelude.{
  ℕ, suc, ◌==◌, if◌then◌else◌, is_some, coalesce, option_any, Bool, not, ◌&&◌, some, List, [], ◌∷◌,
  any_where, count_where, select_where,
}
use digital_store.Model.{
  Db, Order, DeliveryAttempt, is_recoverable, is_retryable, awaits_delivery, Tx, Env, Platform,
  exec, gets, pure, ◌>>=◌, ◌>>◌, order_of, update_attempts, insert_attempt,
}

-- `RepairResult`
pub record RepairResult : Type 0 where
  pub created_delivery_jobs : ℕ
  pub queued_recoverable : ℕ

-- A paid order that waits for its delivery and has no attempt.
unfoldable pub lacks_attempt : Db → Order → Bool
lacks_attempt db o =
    is_some o.paid_at
    && awaits_delivery o.status
    && not (any_where (λ d. d.order_id == o.id) db.delivery_attempts)

-- `INSERT … SELECT … ON CONFLICT (order_id) DO NOTHING`, with the number of rows inserted.
unfoldable pub insert_attempts : Platform → Env → List Order → Tx ℕ
insert_attempts plat env [] = pure 0
insert_attempts plat env (o ∷ os) = do
  conflict ← gets (λ db. any_where (λ d. d.order_id == o.id) db.delivery_attempts)
  if conflict then pure tt else insert_attempt plat env o.id
  n ← insert_attempts plat env os
  pure (if conflict then n else suc n)

unfoldable pub is_unscheduled : Db → DeliveryAttempt → Bool
is_unscheduled db d =
    option_any (λ o. is_some o.paid_at && is_recoverable o.status) (order_of d.order_id db)
    && is_retryable d.status
    && not (is_some d.next_attempt_at)

unfoldable pub scheduled_row : Env → DeliveryAttempt → DeliveryAttempt
scheduled_row env d = record d {
  next_attempt_at = some (coalesce d.next_attempt_at env.now);
  updated_at = env.now;
}

unfoldable pub schedule_recoverable : Env → Db → Db
schedule_recoverable env db = update_attempts (is_unscheduled db) (scheduled_row env) db

unfoldable pub repair : Platform → Env → Tx RepairResult
repair plat env = do
  missing ← gets (λ db. select_where (lacks_attempt db) db.orders)
  created ← insert_attempts plat env missing
  unscheduled ← gets (λ db. count_where (is_unscheduled db) db.delivery_attempts)
  exec (schedule_recoverable env)
  pure (record { created_delivery_jobs = created; queued_recoverable = unscheduled })

-- ===== src/Coherence/Repairs.antt =====
-- A repair finds nothing to do in a coherent database, and leaves it as it is.
use digital_store.Prelude.{ℕ, false, ◌≡◌, arith, any_where}
use digital_store.Prelude.Rows.{
  any_where-none, select_where-none, count_where-none, update_where-none,
}
use digital_store.Model.{Db, Env, Platform, ok, order_of, attempt_of, update_attempts}
use digital_store.Model.View.{any_where-attempt_of}
use digital_store.Reconciliation.Repair.{
  lacks_attempt, insert_attempts, is_unscheduled, scheduled_row, schedule_recoverable, repair,
}
use digital_store.Coherence.Invariant.{Memory, Coherent}

module _ {known : ℕ → Memory} {db : Db} (c : Coherent known db) where
  none_lack_attempt : any_where (lacks_attempt db) db.orders ≡ false
  unfolding lacks_attempt order_of
  none_lack_attempt =
      any_where-none (λ o. o.id) (lacks_attempt db) db.orders c.keyed.order_ids
        λ o e. ground (arith, c.coupled o.id, any_where-attempt_of o.id db)

  none_unscheduled : any_where (is_unscheduled db) db.delivery_attempts ≡ false
  unfolding is_unscheduled attempt_of
  none_unscheduled =
      any_where-none (λ d. d.order_id) (is_unscheduled db) db.delivery_attempts
        c.keyed.attempt_orders λ d e. ground (arith, c.coupled d.order_id)

  -- `Repair` of a coherent database creates no job, schedules none and changes nothing.
  pub repair-Coherent :
      (plat : Platform) (env : Env)
      → repair plat env db ≡ ok (record { created_delivery_jobs = 0; queued_recoverable = 0 }, db)
  unfolding repair insert_attempts schedule_recoverable update_attempts
  repair-Coherent plat env = ground (
    arith,
    select_where-none (lacks_attempt db) db.orders none_lack_attempt,
    count_where-none (is_unscheduled db) db.delivery_attempts none_unscheduled,
    update_where-none (is_unscheduled db) (scheduled_row env) db.delivery_attempts none_unscheduled,
  )

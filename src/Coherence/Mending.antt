-- ===== src/Coherence/Mending.antt =====
-- What a repair mends in a database that is not coherent: every paid order that waits for its
-- delivery has an attempt, and every attempt that can be tried again is scheduled.
use mathlib.Core.List.{Memᴰ}
use digital_store.Prelude.{
  any_where_mono, option_any, is_some, find_where, not, count_where, subst, ℕ, suc, ◌==◌,
  if◌then◌else◌, Bool, true, false, ◌&&◌, List, [], ◌∷◌, ◌≡◌, refl, sym, ◌∙◌, arith, any_where,
  select_where, any_where-update_where, Bool-cases, inl, inr,
}
use digital_store.Prelude.Sorting.{any_where-select_where, any_where-each, any_where-mended}
use digital_store.Prelude.Rows.{any_where-Memᴰ}
use digital_store.Model.{
  Db, Order, OrderStatus, DeliveryAttempt, DeliveryStatus, is_recoverable, Env, Platform, ok,
  insert_attempt, add_attempt, pending_attempt, order_of, update_attempts, gets, exec, pure, ◌>>=◌,
  ◌>>◌,
}
use digital_store.Reconciliation.Repair.{
  RepairResult, lacks_attempt, insert_attempts, is_unscheduled, scheduled_row, schedule_recoverable,
  repair,
}
use digital_store.Coherence.Keeps.{OnOk, OnOk-ok, OnOk-bind, of_OnOk}

abbrev has_attempt : ℕ → Db → Bool
has_attempt k db = any_where (λ d. d.order_id == k) db.delivery_attempts

-- The orders are as they were, and the attempts too but for those of `os`.
record Filled (os : List Order) (db db' : Db) : Type 0 where
  orders : db'.orders ≡ db.orders
  kept : (k : ℕ) → has_attempt k db ≡ true → has_attempt k db' ≡ true
  filled : (k : ℕ) → any_where (λ o. o.id == k) os ≡ true → has_attempt k db' ≡ true

add_attempt-Filled :
    (plat : Platform) (env : Env) (o : Order) (db : Db)
    → Filled (o ∷ []) db (add_attempt (pending_attempt plat env o.id) db)
unfolding add_attempt pending_attempt any_where
add_attempt-Filled plat env o db = record {
  orders = refl;
  kept = λ k h. ground (arith, h);
  filled = λ k h. ground (arith, h);
}

present-Filled : (o : Order) (db : Db) → has_attempt o.id db ≡ true → Filled (o ∷ []) db db
unfolding any_where
present-Filled o db h = record {
  orders = refl;
  kept = λ k e. e;
  filled = λ k e. subst (λ i. has_attempt i db ≡ true) (ground (arith, e)) h;
}

Filled-trans :
    (o : Order) (os : List Order) (db db1 db2 : Db)
    → Filled (o ∷ []) db db1
    → Filled os db1 db2
    → Filled (o ∷ os) db db2
unfolding any_where
Filled-trans o os db db1 db2 f g = record {
  orders = g.orders ∙ f.orders;
  kept = λ k h. g.kept k (f.kept k h);
  filled = λ k h. elim (Bool-cases (o.id == k)) [
    | inl same ↦ g.kept k (f.filled k (ground (arith, same)))
    | inr other ↦ g.filled k (ground (arith, h, other))
  ];
}

missing-Filled :
    (plat : Platform) (env : Env) (o : Order) (db : Db) (conflict : Bool)
    → has_attempt o.id db ≡ conflict
    → OnOk
        (λ u db'. Filled (o ∷ []) db db')
        ((if conflict then pure tt else insert_attempt plat env o.id) db)
missing-Filled plat env o db true h = OnOk-ok (present-Filled o db h)
missing-Filled plat env o db false h = inserted
  where
    inserted : OnOk (λ u db'. Filled (o ∷ []) db db') (insert_attempt plat env o.id db)
    inserted = unfold insert_attempt in ground (arith, add_attempt-Filled plat env o db)

insert_attempts-Filled :
    (plat : Platform) (env : Env) (os : List Order) (db : Db)
    → OnOk (λ n db'. Filled os db db') (insert_attempts plat env os db)
unfolding insert_attempts any_where
insert_attempts-Filled plat env [] db =
    OnOk-ok (record { orders = refl; kept = λ k h. h; filled = λ k h. ground (arith, h) })
insert_attempts-Filled plat env (o ∷ os) db =
    OnOk-bind (λ u db1. Filled (o ∷ []) db db1) (λ n db'. Filled (o ∷ os) db db')
      (if has_attempt o.id db then pure tt else insert_attempt plat env o.id)
      (λ u. insert_attempts plat env os >>= λ n. pure (if has_attempt o.id db then n else suc n)) db
      (missing-Filled plat env o db (has_attempt o.id db) refl)
      λ u db1 f.
        OnOk-bind (λ n db2. Filled os db1 db2) (λ n db'. Filled (o ∷ os) db db')
          (insert_attempts plat env os) (λ n. pure (if has_attempt o.id db then n else suc n)) db1
          (insert_attempts-Filled plat env os db1)
          λ n db2 g. record { holds = Filled-trans o os db db1 db2 f g }

lacks_attempt-Filled :
    (db db1 : Db)
    → Filled (select_where (lacks_attempt db) db.orders) db db1
    → any_where (lacks_attempt db1) db.orders ≡ false
lacks_attempt-Filled db db1 f = any_where-each (lacks_attempt db1) db.orders each
  where
    each : (o : Order) → Memᴰ o db.orders → lacks_attempt db1 o ≡ false
    each o m = elim (Bool-cases (lacks_attempt db o)) [
      | inl lacks ↦
          let there : any_where (λ x. x.id == o.id) (select_where (lacks_attempt db) db.orders)
              ≡ true =
            any_where-select_where (lacks_attempt db) (λ x. x.id == o.id) db.orders
            ∙ any_where-Memᴰ (λ x. lacks_attempt db x && (x.id == o.id)) o db.orders m
                (ground (arith, lacks)) in
          unfold lacks_attempt in ground (arith, f.filled o.id there)
      | inr present ↦ unfold lacks_attempt in ground (arith, present, f.kept o.id)
    ]

-- The database after the attempts are scheduled.
scheduled-mended :
    (env : Env) (db : Db)
    → any_where
        (is_unscheduled (schedule_recoverable env db))
        (schedule_recoverable env db).delivery_attempts
      ≡ false
unfolding schedule_recoverable update_attempts is_unscheduled scheduled_row order_of
scheduled-mended env db =
    any_where-mended (is_unscheduled db) (is_unscheduled db) (scheduled_row env)
      db.delivery_attempts (λ x h. ground (arith, h)) (λ x h. h)

scheduled-Filled :
    (env : Env) (db db1 : Db) (os : List Order)
    → Filled os db db1
    → Filled os db (schedule_recoverable env db1)
unfolding schedule_recoverable update_attempts scheduled_row
scheduled-Filled env db db1 os f = record {
  orders = f.orders;
  kept = λ k h.
      any_where-update_where (λ d. d.order_id == k) (is_unscheduled db1) (scheduled_row env)
        db1.delivery_attempts (λ d. refl)
      ∙ f.kept k h;
  filled = λ k h.
      any_where-update_where (λ d. d.order_id == k) (is_unscheduled db1) (scheduled_row env)
        db1.delivery_attempts (λ d. refl)
      ∙ f.filled k h;
}

abbrev Mended : Db → Db → Type 0
Mended db db' =
    (any_where (lacks_attempt db') db'.orders ≡ false)
    × (any_where (is_unscheduled db') db'.delivery_attempts ≡ false)
    × (db'.orders ≡ db.orders)

-- The schedule leaves the orders alone and takes no attempt away.
scheduled-Mended :
    (env : Env) (db db1 : Db)
    → Filled (select_where (lacks_attempt db) db.orders) db db1
    → Mended db (schedule_recoverable env db1)
unfolding schedule_recoverable update_attempts
scheduled-Mended env db db1 f = (
  subst (λ os. any_where (lacks_attempt (schedule_recoverable env db1)) os ≡ false) (sym (f.orders))
      (lacks_attempt-Filled db (schedule_recoverable env db1) (scheduled-Filled env db db1 _ f)),
  scheduled-mended env db1,
  f.orders,
)

repair-Mended :
    (plat : Platform) (env : Env) (db : Db) → OnOk (λ r db'. Mended db db') (repair plat env db)
unfolding repair
repair-Mended plat env db =
    OnOk-bind (λ n db1. Filled (select_where (lacks_attempt db) db.orders) db db1)
      (λ r db'. Mended db db')
      (insert_attempts plat env (select_where (lacks_attempt db) db.orders))
      (λ created. gets (λ x. count_where (is_unscheduled x) x.delivery_attempts) >>= λ unscheduled.
        exec (schedule_recoverable env)
        >> pure (record { created_delivery_jobs = created; queued_recoverable = unscheduled }))
      db (insert_attempts-Filled plat env (select_where (lacks_attempt db) db.orders) db)
      λ created db1 f. record { holds = scheduled-Mended env db db1 f }

-- A paid order that is owed a delivery nobody is making.
abbrev pub is_owed : Order → Bool
is_owed o = is_some o.paid_at && (elim o.status [
  | OrderStatus.paid ↦ true
  | OrderStatus.out_of_stock ↦ true
  | OrderStatus.delivery_failed ↦ true
  | OrderStatus.created ↦ false
  | OrderStatus.payment_failed ↦ false
  | OrderStatus.delivering ↦ false
  | OrderStatus.delivered ↦ false
])

-- No attempt will ever bring the delivery that the order is owed.
abbrev pub is_unserved : Db → Order → Bool
is_unserved db o = is_owed o && not (any_where (λ d. d.order_id == o.id) db.delivery_attempts)

abbrev pub has_failed : OrderStatus → Bool
has_failed OrderStatus.out_of_stock = true
has_failed OrderStatus.delivery_failed = true
has_failed _ = false

abbrev pub is_failure : DeliveryStatus → Bool
is_failure DeliveryStatus.out_of_stock = true
is_failure DeliveryStatus.failed = true
is_failure _ = false

-- A failed attempt that is never due, of a paid order whose delivery has failed.
abbrev pub is_stranded : Db → DeliveryAttempt → Bool
is_stranded db d =
    is_failure d.status
    && not (is_some d.next_attempt_at)
    && option_any (λ o. is_some o.paid_at && has_failed o.status)
        (find_where (λ o. o.id == d.order_id) db.orders)

-- After a repair that commits, whatever the database was, each order with a date of payment and the status paid,
-- out_of_stock or delivery_failed has an attempt, and each attempt that is failed or out_of_stock,
-- of an order with a date of payment and the status out_of_stock or delivery_failed, has a date of
-- its next try. The orders stay as they are.
pub repair-mends :
    (plat : Platform) (env : Env) (r : RepairResult) (db db' : Db)
    → repair plat env db ≡ ok (r, db')
    → (any_where (is_unserved db') db'.orders ≡ false)
      × (any_where (is_stranded db') db'.delivery_attempts ≡ false)
      × (db'.orders ≡ db.orders)
unfolding lacks_attempt is_unscheduled is_recoverable order_of
repair-mends plat env r db db' h =
    let (served, scheduled, orders) = of_OnOk (repair-Mended plat env db) h in
    (
      any_where_mono (lacks_attempt db') (is_unserved db') db'.orders (λ o k. ground (arith, k))
          served,
      any_where_mono (is_unscheduled db') (is_stranded db') db'.delivery_attempts
          (λ d k. ground (arith, k)) scheduled,
      orders,
    )

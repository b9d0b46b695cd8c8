-- ===== src/Coherence/Statements.antt =====
-- What the shared statements keep: the keys, and their action on the view of one order.
use digital_store.Prelude.{
  ℕ, ◌==◌, Bool, false, ◌&&◌, some, ◌≡◌, arith, any_where, any_where-find_where, option_any,
  update_where-UniqueBy,
}
use digital_store.Model.{
  Db, Order, DeliveryAttempt, LedgerEntry, Env, Platform, update_order, update_attempts,
  update_attempt_of, add_attempt, insert_attempt, is_taken, pending_attempt, add_ledger_entry,
  attempt_of,
}
use digital_store.Model.View.{view, on, view-add_attempt}
use digital_store.Coherence.Invariant.{Tabled, is_refund}
use digital_store.Coherence.Keeps.{OnOk}

module _ {db : Db} (keyed : Tabled db) where
  pub update_order-Tabled :
      (id : ℕ) (p : Order → Bool) (f : Order → Order)
      → ((o : Order) → (f o).id ≡ o.id)
      → Tabled (update_order id p f db)
  unfolding update_order
  update_order-Tabled id p f h = record {
    order_ids = update_where-UniqueBy (λ o. o.id) _ f db.orders h keyed.order_ids;
    attempt_ids = keyed.attempt_ids;
    attempt_orders = keyed.attempt_orders;
    no_refund = keyed.no_refund;
  }

  pub update_attempts-Tabled :
      (p : DeliveryAttempt → Bool) (f : DeliveryAttempt → DeliveryAttempt)
      → ((d : DeliveryAttempt) → (f d).id ≡ d.id)
      → ((d : DeliveryAttempt) → (f d).order_id ≡ d.order_id)
      → Tabled (update_attempts p f db)
  unfolding update_attempts
  update_attempts-Tabled p f hi ho = record {
    order_ids = keyed.order_ids;
    attempt_ids = update_where-UniqueBy (λ d. d.id) p f db.delivery_attempts hi keyed.attempt_ids;
    attempt_orders =
        update_where-UniqueBy (λ d. d.order_id) p f db.delivery_attempts ho keyed.attempt_orders;
    no_refund = keyed.no_refund;
  }

  pub update_attempt_of-Tabled :
      (id : ℕ) (p : DeliveryAttempt → Bool) (f : DeliveryAttempt → DeliveryAttempt)
      → ((d : DeliveryAttempt) → (f d).id ≡ d.id)
      → ((d : DeliveryAttempt) → (f d).order_id ≡ d.order_id)
      → Tabled (update_attempt_of id p f db)
  unfolding update_attempt_of update_attempts
  update_attempt_of-Tabled id p f hi ho =
      update_attempts-Tabled (λ d. (d.order_id == id) && p d) f hi ho

  pub add_attempt-Tabled :
      (d : DeliveryAttempt)
      → any_where (λ x. x.id == d.id) db.delivery_attempts ≡ false
      → any_where (λ x. x.order_id == d.order_id) db.delivery_attempts ≡ false
      → Tabled (add_attempt d db)
  unfolding add_attempt
  add_attempt-Tabled d hi ho = record {
    order_ids = keyed.order_ids;
    attempt_ids = (hi, keyed.attempt_ids);
    attempt_orders = (ho, keyed.attempt_orders);
    no_refund = keyed.no_refund;
  }

  pub add_ledger_entry-Tabled :
      (l : LedgerEntry) → is_refund l.entry_type ≡ false → Tabled (add_ledger_entry l db)
  unfolding add_ledger_entry any_where
  add_ledger_entry-Tabled l h = record {
    order_ids = keyed.order_ids;
    attempt_ids = keyed.attempt_ids;
    attempt_orders = keyed.attempt_orders;
    no_refund = ground (arith, h, keyed.no_refund);
  }

-- The search for an attempt of the order fails exactly where the conflict test does.
pub attempt_of-any_where :
    (id : ℕ) (db : Db)
    → any_where (λ d. d.order_id == id) db.delivery_attempts
      ≡ option_any (λ d. d.order_id == id) (attempt_of id db)
unfolding attempt_of
attempt_of-any_where id db = any_where-find_where (λ d. d.order_id == id) db.delivery_attempts

-- Where the order has no attempt yet, the insert adds the pending one and keeps the keys.
pub insert_attempt-view :
    (plat : Platform) (env : Env) (id : ℕ) (db : Db) (k : ℕ)
    → OnOk
        (λ u db'.
          view k db'
          ≡ on id k (λ v. record v { attempt = some (pending_attempt plat env id) }) (view k db))
        (insert_attempt plat env id db)
unfolding insert_attempt pending_attempt
insert_attempt-view plat env id db k =
    ground (arith, view-add_attempt k db (pending_attempt plat env id))

pub insert_attempt-Tabled :
    (plat : Platform) (env : Env) (id : ℕ) (db : Db)
    → Tabled db
    → any_where (λ d. d.order_id == id) db.delivery_attempts ≡ false
    → OnOk (λ u db'. Tabled db') (insert_attempt plat env id db)
unfolding insert_attempt pending_attempt is_taken
insert_attempt-Tabled plat env id db keyed h =
    ground (arith, add_attempt-Tabled keyed (pending_attempt plat env id))

-- ===== src/Coherence/Payable.antt =====
-- A payment event that names an order by a UUID and has a known status and an amount commits.
use digital_store.Prelude.{
  ℕ, ◌==◌, str_eq, is_negative, if◌then◌else◌, is_some, Bool-cases, inl, inr, Bool, true, false,
  ◌&&◌, ◌||◌, String, ℤ, Option, none, some, ◌≡◌, refl, ◌∙◌, arith, any_where,
  any_where-update_where,
}
use digital_store.Coherence.Orders.{mismatches}
use digital_store.Model.{
  PaymentEvent, exec, raise, unsupported_payment_status, ◌>>◌, Db, Order, OrderStatus,
  PaymentWebhook, Tx, ok, Env, Platform, has_order, is_taken, pending_attempt, insert_attempt,
  add_attempt, add_ledger_entry, update_order, order_of, update_attempt_of, is_created,
  is_recoverable, is_payment,
}
use digital_store.Model.View.{has_order-order_of}
use digital_store.Order.{
  event_row, has_event, add_event, is_storable, check_event, apply_if_found, apply_to_locked,
  process_payment,
}
use digital_store.Order.Payment.{
  paid_row, mark_created_paid, recover_paid, mark_payment_failed, mark_payment_processed,
  restore_attempt, upsert_attempt, payment_row, insert_payment_entry, queue_delivery,
  apply_paid_event, apply_failed_event, apply_payment_to_order,
}
use digital_store.Coherence.Commits.{if_true, if_false}

-- The transaction commits.
pub record Commits (m : Tx (Unit {0})) (db : Db) : Type 0 where
  pub committed : Db
  pub commits : m db ≡ ok (tt, committed)

exec-Commits :
    (f : Db → Db) (m : Tx (Unit {0})) (db : Db) → Commits m (f db) → Commits (exec f >> m) db
exec-Commits f m db h = record { committed = h.committed; commits = h.commits }

if-Commits :
    (b : Bool) (m n : Tx (Unit {0})) (db : Db)
    → (b ≡ true → Commits m db)
    → (b ≡ false → Commits n db)
    → Commits (if b then m else n) db
if-Commits true m n db hm hn = hm refl
if-Commits false m n db hm hn = hn refl

module _ (plat : Platform) (env : Env) (id : ℕ) where
  -- The order is there, and a first attempt of it can be inserted.
  pub record IsReady (db : Db) : Type 0 where
    pub has : has_order id db ≡ true
    pub free :
        any_where (λ d. d.order_id == id) db.delivery_attempts ≡ false
        → is_taken (pending_attempt plat env id) db ≡ false

  upsert_attempt-commits :
      (db : Db)
      → IsReady db
      → (db' : Db) × (upsert_attempt plat env id db ≡ ok (tt, db')) × (has_order id db' ≡ true)
  unfolding upsert_attempt insert_attempt restore_attempt add_attempt has_order update_attempt_of
  upsert_attempt-commits db r =
      elim (Bool-cases (any_where (λ d. d.order_id == id) db.delivery_attempts)) [
        | inl e ↦ (restore_attempt env id db, if_true _ _ _ e, r.has)
        | inr e ↦ (
          add_attempt (pending_attempt plat env id) db,
          if_false (any_where (λ d. d.order_id == id) db.delivery_attempts) _ _ e
              ∙ if_false (is_taken (pending_attempt plat env id) db) _ _ (r.free e)
              ∙ if_true (has_order id db) _ _ r.has,
          r.has,
        )
      ]

  insert_payment_entry-Commits :
      (amount : ℤ) (currency : String) (db : Db)
      → has_order id db ≡ true
      → Commits (insert_payment_entry env id amount currency) db
  unfolding insert_payment_entry
  insert_payment_entry-Commits amount currency db h =
      elim (Bool-cases
        (any_where (λ l. (l.order_id == id) && is_payment l.entry_type) db.ledger_entries)) [
          | inl e ↦ record {
            committed = db;
            commits =
                if_true
                  (any_where (λ l. (l.order_id == id) && is_payment l.entry_type) db.ledger_entries)
                  _ _ e;
          }
          | inr e ↦ record {
            committed = add_ledger_entry (payment_row env id amount currency) db;
            commits =
                if_false
                  (any_where (λ l. (l.order_id == id) && is_payment l.entry_type) db.ledger_entries)
                  _ _ e
                ∙ if_true (has_order id db) _ _ h;
          }
        ]

  module _ (amount : ℤ) (currency event_id : String) where
    queue_delivery-Commits :
        (db : Db) → IsReady db → Commits (queue_delivery plat env id amount currency event_id) db
    unfolding queue_delivery
    queue_delivery-Commits db r =
        let (db1, e1, h1) = upsert_attempt-commits db r in
        let entry = insert_payment_entry-Commits amount currency db1 h1 in
        record {
          committed = mark_payment_processed env event_id entry.committed;
          commits = ground (arith, e1, entry.commits);
        }

    pay-IsReady :
        (p : Order → Bool) (db : Db) → IsReady db → IsReady (update_order id p (paid_row env) db)
    unfolding update_order paid_row has_order is_taken
    pay-IsReady p db r = record {
      has =
          any_where-update_where (λ o. o.id == id) (λ o. (o.id == id) && p o) (paid_row env)
            db.orders (λ o. refl)
          ∙ r.has;
      free = r.free;
    }

    apply_paid_event-Commits :
        (s : OrderStatus) (db : Db)
        → IsReady db
        → Commits (apply_paid_event plat env id s amount currency event_id) db
    unfolding apply_paid_event mark_created_paid recover_paid
    apply_paid_event-Commits OrderStatus.delivered db r = record {
      committed = mark_payment_processed env event_id db;
      commits = refl;
    }
    apply_paid_event-Commits OrderStatus.payment_failed db r = record {
      committed = mark_payment_processed env event_id db;
      commits = refl;
    }
    apply_paid_event-Commits OrderStatus.created db r =
        exec-Commits (mark_created_paid env id)
          (queue_delivery plat env id amount currency event_id) db
          (queue_delivery-Commits (mark_created_paid env id db)
            (pay-IsReady (λ o. is_created o.status) db r))
    apply_paid_event-Commits OrderStatus.out_of_stock db r =
        exec-Commits (recover_paid env id) (queue_delivery plat env id amount currency event_id) db
          (queue_delivery-Commits (recover_paid env id db)
            (pay-IsReady (λ o. is_recoverable o.status) db r))
    apply_paid_event-Commits OrderStatus.delivery_failed db r =
        exec-Commits (recover_paid env id) (queue_delivery plat env id amount currency event_id) db
          (queue_delivery-Commits (recover_paid env id db)
            (pay-IsReady (λ o. is_recoverable o.status) db r))
    apply_paid_event-Commits OrderStatus.paid db r = queue_delivery-Commits db r
    apply_paid_event-Commits OrderStatus.delivering db r = queue_delivery-Commits db r

    apply_failed_event-Commits :
        (s : OrderStatus) (db : Db) → Commits (apply_failed_event env id s event_id) db
    unfolding apply_failed_event
    apply_failed_event-Commits OrderStatus.created db = record {
      committed = mark_payment_processed env event_id (mark_payment_failed env id db);
      commits = refl;
    }
    apply_failed_event-Commits OrderStatus.paid db = record {
      committed = mark_payment_processed env event_id db;
      commits = refl;
    }
    apply_failed_event-Commits _ db = record {
      committed = mark_payment_processed env event_id db;
      commits = refl;
    }

    apply_payment-Commits :
        (s : OrderStatus) (status : String) (paid_amount : ℤ) (paid_currency : String) (db : Db)
        → IsReady db
        → (str_eq status "paid" || str_eq status "failed") ≡ true
        → Commits
            (apply_payment_to_order plat env id s amount currency event_id status paid_amount
              paid_currency)
            db
    unfolding apply_payment_to_order
    apply_payment-Commits s status paid_amount paid_currency db r known =
        let failed = apply_failed_event env id s event_id in
        let unknown : Tx (Unit {0}) = raise (unsupported_payment_status status) in
        let paid = apply_paid_event plat env id s amount currency event_id in
        if-Commits (mismatches amount currency paid_amount paid_currency)
          (exec (mark_payment_processed env event_id))
          (if str_eq status "paid"
            then paid
            else if str_eq status "failed"
            then failed
            else unknown)
          db (λ e. record { committed = mark_payment_processed env event_id db; commits = refl })
          λ e.
            if-Commits (str_eq status "paid") paid
              (if str_eq status "failed" then failed else unknown) db
              (λ p. apply_paid_event-Commits s db r)
              λ p.
                if-Commits (str_eq status "failed") failed unknown db
                  (λ f. apply_failed_event-Commits s db)
                  λ f. elim (let never : ⊥ = ground (arith, known, p, f) in never) [ ]

  apply_if_found-Commits :
      (event : PaymentWebhook) (o : Option Order) (db : Db)
      → (str_eq event.status "paid" || str_eq event.status "failed") ≡ true
      → (is_some o ≡ true → IsReady db)
      → Commits (apply_if_found plat env id event o) db
  unfolding apply_if_found
  apply_if_found-Commits event none db known ready = record { committed = db; commits = refl }
  apply_if_found-Commits event (some o) db known ready =
      apply_payment-Commits o.amount_minor o.currency event.event_id o.status event.status
        event.amount event.currency db (ready refl) known

  received-IsReady :
      (e : PaymentEvent) (db : Db)
      → (any_where (λ d. d.order_id == id) db.delivery_attempts ≡ false
          → is_taken (pending_attempt plat env id) db ≡ false)
      → is_some (order_of id (add_event e db)) ≡ true
      → IsReady (add_event e db)
  unfolding add_event is_taken order_of has_order
  received-IsReady e db free h = record { has = has_order-order_of id db ∙ h; free = free }

  -- An event that its columns take, with a known status and an amount that is not negative, for an order that is named by
  -- a UUID: the first attempt of the order, if it has none, takes no id that is in use.
  pub process_payment-Commits :
      (event : PaymentWebhook) (payload : String) (db : Db)
      → is_storable plat event payload ≡ true
      → plat.parse event.order_id ≡ some id
      → (str_eq event.status "paid" || str_eq event.status "failed") ≡ true
      → is_negative event.amount ≡ false
      → (any_where (λ d. d.order_id == id) db.delivery_attempts ≡ false
          → is_taken (pending_attempt plat env id) db ≡ false)
      → Commits (process_payment plat env event payload) db
  unfolding process_payment check_event apply_to_locked
  process_payment-Commits event payload db storable parsed known sign free =
      elim (Bool-cases (has_event event.event_id db)) [
        | inl again ↦ record {
          committed = db;
          commits = ground (arith, storable, parsed, known, sign, again);
        }
        | inr new ↦
            let received = add_event (event_row env id event payload) db in
            let run =
              apply_if_found-Commits event (order_of id received) received known
                (received-IsReady (event_row env id event payload) db free) in
            record {
              committed = run.committed;
              commits = ground (arith, storable, parsed, known, sign, new, run.commits);
            }
      ]

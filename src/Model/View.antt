-- ===== src/Model/View.antt =====
-- What one order sees of the database: its row, its delivery attempt and the counts of its ledger
-- entries, and what each statement does to that view.
use mathlib.Core.Option
use digital_store.Prelude.{
  ℕ, suc, ◌==◌, ==_iff, if◌then◌else◌, is_some, Bool, not, ◌&&◌, Option, some, ◌≡◌, arith, ap,
  updated, find_where-update_where, find_where-holds, find_where-update_key, find_where,
  count_where, any_where, any_where-is_some, any_where-count_where,
}
use digital_store.Model.Status.{is_payment, is_delivery}
use digital_store.Model.Rows.{Db, Order, DeliveryAttempt, LedgerEntry}
use digital_store.Model.Statements.{
  order_of, attempt_of, payment_entries, delivery_entries, update_order, update_attempts,
  update_attempt_of, add_attempt, add_ledger_entry, has_order,
}

pub record View : Type 0 where
  pub order : Option Order
  pub attempt : Option DeliveryAttempt
  pub payments : ℕ
  pub deliveries : ℕ

abbrev pub view : ℕ → Db → View
view k db = record {
  order = order_of k db;
  attempt = attempt_of k db;
  payments = payment_entries k db;
  deliveries = delivery_entries k db;
}

-- A statement on order `id` reaches the view of that order alone.
abbrev pub on : ℕ → ℕ → (View → View) → View → View
on id k f v = if id == k then f v else v

abbrev pub map_order : (Order → Bool) → (Order → Order) → View → View
map_order p f v = record v { order = Option.map (updated p f) v.order }

abbrev pub map_attempt :
    (DeliveryAttempt → Bool) → (DeliveryAttempt → DeliveryAttempt) → View → View
map_attempt p f v = record v { attempt = Option.map (updated p f) v.attempt }

pub order_of-id : (k : ℕ) (db : Db) {o : Order} → order_of k db ≡ some o → o.id ≡ k
unfolding order_of
order_of-id k db {o} h = (==_iff o.id k).0 (find_where-holds (λ x. x.id == k) db.orders h)

pub attempt_of-order_id :
    (k : ℕ) (db : Db) {d : DeliveryAttempt} → attempt_of k db ≡ some d → d.order_id ≡ k
unfolding attempt_of
attempt_of-order_id k db {d} h =
    (==_iff d.order_id k).0 (find_where-holds (λ x. x.order_id == k) db.delivery_attempts h)

-- The conflict tests, `EXISTS`, read off the view.
pub any_where-attempt_of :
    (id : ℕ) (db : Db)
    → any_where (λ d. d.order_id == id) db.delivery_attempts ≡ is_some (attempt_of id db)
unfolding attempt_of
any_where-attempt_of id db = any_where-is_some (λ d. d.order_id == id) db.delivery_attempts

pub has_order-order_of : (id : ℕ) (db : Db) → has_order id db ≡ is_some (order_of id db)
unfolding has_order order_of
has_order-order_of id db = any_where-is_some (λ o. o.id == id) db.orders

pub any_where-payment_entries :
    (id : ℕ) (db : Db)
    → any_where (λ l. (l.order_id == id) && is_payment l.entry_type) db.ledger_entries
      ≡ not (payment_entries id db == 0)
unfolding payment_entries
any_where-payment_entries id db =
    any_where-count_where (λ l. (l.order_id == id) && is_payment l.entry_type) db.ledger_entries

pub any_where-delivery_entries :
    (id : ℕ) (db : Db)
    → any_where (λ l. (l.order_id == id) && is_delivery l.entry_type) db.ledger_entries
      ≡ not (delivery_entries id db == 0)
unfolding delivery_entries
any_where-delivery_entries id db =
    any_where-count_where (λ l. (l.order_id == id) && is_delivery l.entry_type) db.ledger_entries

module _ (k id : ℕ) (db : Db) where
  pub view-update_order :
      (p : Order → Bool) (f : Order → Order)
      → ((o : Order) → (f o).id ≡ o.id)
      → view k (update_order id p f db) ≡ on id k (map_order p f) (view k db)
  unfolding update_order order_of attempt_of payment_entries delivery_entries
  view-update_order p f h = ground (arith, find_where-update_key (λ o. o.id) k id p f db.orders h)

  pub view-update_attempt_of :
      (p : DeliveryAttempt → Bool) (f : DeliveryAttempt → DeliveryAttempt)
      → ((d : DeliveryAttempt) → (f d).order_id ≡ d.order_id)
      → view k (update_attempt_of id p f db) ≡ on id k (map_attempt p f) (view k db)
  unfolding update_attempt_of order_of attempt_of payment_entries delivery_entries
  view-update_attempt_of p f h =
      ground (arith, find_where-update_key (λ d. d.order_id) k id p f db.delivery_attempts h)

pub view-update_attempts :
    (k : ℕ) (db : Db) (p : DeliveryAttempt → Bool) (f : DeliveryAttempt → DeliveryAttempt)
    → ((d : DeliveryAttempt) → (f d).order_id ≡ d.order_id)
    → view k (update_attempts p f db) ≡ map_attempt p f (view k db)
unfolding update_attempts order_of attempt_of payment_entries delivery_entries
view-update_attempts k db p f h = ground (
  arith,
  find_where-update_where (λ d. d.order_id == k) p f db.delivery_attempts
      (λ d. ap (λ n. n == k) (h d)),
)

pub view-add_attempt :
    (k : ℕ) (db : Db) (d : DeliveryAttempt)
    → view k (add_attempt d db) ≡ on d.order_id k (λ v. record v { attempt = some d }) (view k db)
unfolding add_attempt order_of attempt_of payment_entries delivery_entries find_where
view-add_attempt k db d = ground arith

abbrev pub count_entry : LedgerEntry → View → View
count_entry l v = record v {
  payments = if is_payment l.entry_type then suc v.payments else v.payments;
  deliveries = if is_delivery l.entry_type then suc v.deliveries else v.deliveries;
}

pub view-add_ledger_entry :
    (k : ℕ) (db : Db) (l : LedgerEntry)
    → view k (add_ledger_entry l db) ≡ on l.order_id k (count_entry l) (view k db)
unfolding add_ledger_entry order_of attempt_of payment_entries delivery_entries count_where
view-add_ledger_entry k db l = ground arith

-- ===== src/Model/Statements.antt =====
-- The SQL statements that several operations share, as functions on the database.
use digital_store.Prelude.{
  ℕ, ◌==◌, str_eq, if◌then◌else◌, Bool, ◌&&◌, ◌||◌, String, Option, none, some, ◌∷◌, find_where,
  any_where, count_where, update_where,
}
use Prim.Native.String.{◌++◌ as append}
use digital_store.Model.Status.{DeliveryStatus, is_payment, is_delivery}
use digital_store.Model.Rows.{Db, Order, DeliveryAttempt, LedgerEntry}
use digital_store.Model.Transaction.{
  Tx, Env, Platform, exec, raise, unique_violation, foreign_key_violation,
}

-- `SELECT … FROM orders WHERE id = $1`
unfoldable pub order_of : ℕ → Db → Option Order
order_of id db = find_where (λ o. o.id == id) db.orders

-- `SELECT … FROM delivery_attempts WHERE order_id = $1`
unfoldable pub attempt_of : ℕ → Db → Option DeliveryAttempt
attempt_of order_id db = find_where (λ d. d.order_id == order_id) db.delivery_attempts

-- `SELECT … FROM delivery_attempts WHERE id = $1`
unfoldable pub attempt_by_id : ℕ → Db → Option DeliveryAttempt
attempt_by_id id db = find_where (λ d. d.id == id) db.delivery_attempts

-- `SELECT count(*) FROM ledger_entries WHERE order_id = … AND entry_type = 'payment'`
unfoldable pub payment_entries : ℕ → Db → ℕ
payment_entries order_id db =
    count_where (λ l. (l.order_id == order_id) && is_payment l.entry_type) db.ledger_entries

-- `SELECT count(*) FROM ledger_entries WHERE order_id = … AND entry_type = 'delivery'`
unfoldable pub delivery_entries : ℕ → Db → ℕ
delivery_entries order_id db =
    count_where (λ l. (l.order_id == order_id) && is_delivery l.entry_type) db.ledger_entries

-- `UPDATE orders SET … WHERE id = $1 AND …`
unfoldable pub update_order : ℕ → (Order → Bool) → (Order → Order) → Db → Db
update_order id p f db = record db { orders = update_where (λ o. (o.id == id) && p o) f db.orders }

-- `UPDATE delivery_attempts SET … WHERE …`
unfoldable pub update_attempts :
    (DeliveryAttempt → Bool) → (DeliveryAttempt → DeliveryAttempt) → Db → Db
update_attempts p f db = record db { delivery_attempts = update_where p f db.delivery_attempts }

-- `UPDATE delivery_attempts SET … WHERE order_id = $1 AND …`
unfoldable pub update_attempt_of :
    ℕ → (DeliveryAttempt → Bool) → (DeliveryAttempt → DeliveryAttempt) → Db → Db
update_attempt_of order_id p f db = record db {
  delivery_attempts = update_where (λ d. (d.order_id == order_id) && p d) f db.delivery_attempts;
}

-- `fmt.Sprintf("req-%s-1", orderID)`
unfoldable pub request_id_of : Platform → ℕ → String
request_id_of plat order_id = append (append "req-" (plat.show order_id)) "-1"

-- The row of `INSERT INTO delivery_attempts (…) VALUES ($1, $2, 'pending', now())`.
unfoldable pub pending_attempt : Platform → Env → ℕ → DeliveryAttempt
pending_attempt plat env order_id = record {
  id = env.fresh_id order_id;
  order_id = order_id;
  request_id = request_id_of plat order_id;
  provider = none;
  status = DeliveryStatus.pending;
  code = none;
  error = none;
  attempts = 0;
  next_attempt_at = some env.now;
  locked_at = none;
  created_at = env.now;
  updated_at = env.now;
}

unfoldable pub add_attempt : DeliveryAttempt → Db → Db
add_attempt a db = record db { delivery_attempts = a ∷ db.delivery_attempts }

-- The id or the request id of the row is taken.
unfoldable pub is_taken : DeliveryAttempt → Db → Bool
is_taken row db =
    any_where (λ d. d.id == row.id) db.delivery_attempts
    || any_where (λ d. str_eq d.request_id row.request_id) db.delivery_attempts

unfoldable pub has_order : ℕ → Db → Bool
has_order id db = any_where (λ o. o.id == id) db.orders

-- The insert itself, where no attempt of the order stands in the way: the primary key and the
-- unique request id are checked, and then the reference to the order.
unfoldable pub insert_attempt : Platform → Env → ℕ → Tx (Unit {0})
insert_attempt plat env order_id db =
    let row = pending_attempt plat env order_id in
    if is_taken row db
    then raise unique_violation db
    else if has_order order_id db
    then exec (add_attempt row) db
    else raise foreign_key_violation db

unfoldable pub add_ledger_entry : LedgerEntry → Db → Db
add_ledger_entry l db = record db { ledger_entries = l ∷ db.ledger_entries }

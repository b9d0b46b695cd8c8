-- ===== src/Order.antt =====
-- internal/order/repository.go: the operations of `Repository`, each one transaction.
pub mod Payment
pub mod Pending
pub mod Lifecycle
use digital_store.Prelude.{
  ℕ, ◌==◌, str_eq, if◌then◌else◌, Bool, not, ◌&&◌, ◌||◌, String, Option, none, some, List, [], ◌∷◌,
  ◌++◌, find_where, any_where, is_negative, ℤ, fits_char, char_of,
}
use digital_store.Model.{
  Db, Order, Product, PaymentEvent, PaymentWebhook, OrderStatus, Tx, Env, Platform, exec, guard,
  has_order, gets, pure, raise, parse_uuid, ◌>>=◌, ◌>>◌, product_not_found, order_not_found,
  unique_violation, check_violation, invalid_value, order_of, attempt_of,
}
use Payment.{apply_payment_to_order}
use Pending.{apply_pending_payments}

-- `SELECT price_minor, currency FROM products WHERE sku = $1 AND active = TRUE`
unfoldable pub product_of : String → Db → Option Product
product_of sku db = find_where (λ p. str_eq p.sku sku && p.active) db.products

unfoldable pub find_product : String → Tx Product
find_product sku db = elim (product_of sku db) [
  | none ↦ raise product_not_found db
  | some p ↦ pure p db
]

unfoldable pub new_order : Env → ℕ → String → Product → Order
new_order env id sku p = record {
  id = id;
  sku = sku;
  amount_minor = p.price_minor;
  currency = p.currency;
  status = OrderStatus.created;
  paid_at = none;
  delivered_at = none;
  last_error = none;
  created_at = env.now;
  updated_at = env.now;
}

unfoldable pub add_order : Order → Db → Db
add_order o db = record db { orders = o ∷ db.orders }

-- `INSERT INTO orders`: the CHECK of the amount, then the primary key.
unfoldable pub insert_order : Order → Tx (Unit {0})
insert_order o db =
    if is_negative o.amount_minor
    then raise check_violation db
    else if has_order o.id db
    then raise unique_violation db
    else exec (add_order o) db

-- `getByID`: the order with the code of its attempt, by a left join.
unfoldable pub get_by_id : ℕ → Tx (Order × Option String)
get_by_id id db = elim (order_of id db) [
  | none ↦ raise order_not_found db
  | some o ↦ pure (o, elim (attempt_of id db) [ none ↦ none | some d ↦ d.code ]) db
]

-- `create`, behind `Create` (which draws the id) and `CreateWithID`.
unfoldable pub create : Platform → Env → ℕ → String → Tx (Order × Option String)
create plat env order_id sku = do
  p ← find_product sku
  insert_order (new_order env order_id sku p)
  apply_pending_payments plat env order_id p.price_minor p.currency
  get_by_id order_id

unfoldable pub event_row : Env → ℕ → PaymentWebhook → String → PaymentEvent
event_row env order_id event payload = record {
  event_id = event.event_id;
  order_id = order_id;
  status = event.status;
  amount_minor = event.amount;
  currency = char_of 3 event.currency;
  payload = payload;
  received_at = env.now;
  processed_at = none;
}

unfoldable pub has_event : String → Db → Bool
has_event event_id db = any_where (λ e. str_eq e.event_id event_id) db.payment_events

unfoldable pub add_event : PaymentEvent → Db → Db
add_event e db = record db { payment_events = e ∷ db.payment_events }

-- What the columns of `payment_events` take: the payload is cast to jsonb and the currency is a
-- CHAR(3).
unfoldable pub is_storable : Platform → PaymentWebhook → String → Bool
is_storable plat event payload = plat.is_jsonb payload && fits_char 3 event.currency

-- The types of the columns of `payment_events`, then its CHECK constraints.
unfoldable pub check_event : Platform → PaymentWebhook → String → Tx (Unit {0})
check_event plat event payload = do
  guard (is_storable plat event payload) invalid_value
  guard
      ((str_eq event.status "paid" || str_eq event.status "failed")
        && not (is_negative event.amount))
      check_violation

unfoldable pub apply_if_found : Platform → Env → ℕ → PaymentWebhook → Option Order → Tx (Unit {0})
apply_if_found plat env order_id event none = pure tt
apply_if_found plat env order_id event (some o) =
    apply_payment_to_order plat env order_id o.status o.amount_minor o.currency event.event_id
      event.status event.amount event.currency

-- The lock on the order, and the payment if there is an order.
unfoldable pub apply_to_locked : Platform → Env → ℕ → PaymentWebhook → Tx (Unit {0})
apply_to_locked plat env order_id event db =
    apply_if_found plat env order_id event (order_of order_id db) db

-- `ProcessPayment`. PostgreSQL checks the constraints of the row before it looks for a conflict.
unfoldable pub process_payment : Platform → Env → PaymentWebhook → String → Tx (Unit {0})
process_payment plat env event payload = do
  order_id ← parse_uuid plat event.order_id
  check_event plat event payload
  duplicate ← gets (has_event event.event_id)
  if duplicate then pure tt else (do
    exec (add_event (event_row env order_id event payload))
    apply_to_locked plat env order_id event)

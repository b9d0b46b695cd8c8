-- ===== src/Coherence/Orders.antt =====
-- The operations of internal/order keep the database coherent.
use digital_store.Prelude.{
  ℕ, str_eq, int_eq, if◌then◌else◌, Bool, true, false, not, ◌||◌, String, ℤ, Option, none, some,
  ◌≡◌, refl, arith,
}
use digital_store.Model.{
  PaymentEvent, PaymentWebhook, parse_uuid, gets, guard, invalid_value, Db, order_of, attempt_of,
  payment_entries, delivery_entries, Order, PaymentWebhook, OrderStatus, is_created, Env, Platform,
}
use digital_store.Model.View.{View, map_order, view-update_order}
use digital_store.Order.{
  event_row, has_event, add_event, is_storable, check_event, apply_if_found, apply_to_locked,
  process_payment,
}
use digital_store.Order.Payment.{mark_payment_failed, apply_failed_event, apply_payment_to_order}
use digital_store.Coherence.Invariant.{Memory, Tabled, Coupled, Coherent}
use digital_store.Coherence.Keeps.{
  OnOk, Keeps-bind, Keeps-gets, Keeps-guard, Keeps-exec, Keeps-pure, OnOk-ok, Keeps, Keeps-raise,
  Keeps-if,
}
use digital_store.Coherence.Acts.{Acts, Acts-exec, Acts-bind, Acts-if, Acts-if-raise, Keeps-read}
use digital_store.Coherence.Statements.{update_order-Tabled}
use digital_store.Coherence.Payments.{
  id_view, paid_view, paid_view-Coupled, apply_paid_event-Acts, apply_paid_event-Tabled,
  mark_payment_processed-Acts, mark_payment_processed-Tabled,
}

abbrev pub failed_row : Env → Order → Order
failed_row env o = record o { status = OrderStatus.payment_failed; updated_at = env.now }

abbrev pub failed_view : Env → OrderStatus → View → View
failed_view env OrderStatus.created v = map_order (λ o. is_created o.status) (failed_row env) v
failed_view env _ v = v

module _ (env : Env) (id : ℕ) (event_id : String) where
  apply_failed_event-Acts :
      (s : OrderStatus) → Acts id (failed_view env s) (apply_failed_event env id s event_id)
  unfolding apply_failed_event mark_payment_failed
  apply_failed_event-Acts OrderStatus.created =
      Acts-bind _ id_view _ _
        (Acts-exec _ _ (λ db k. view-update_order k id db _ (failed_row env) (λ o. refl)))
        (λ _. mark_payment_processed-Acts env id event_id)
  apply_failed_event-Acts _ = mark_payment_processed-Acts env id event_id

  apply_failed_event-Tabled :
      (s : OrderStatus) → Keeps Tabled (apply_failed_event env id s event_id)
  unfolding apply_failed_event mark_payment_failed
  apply_failed_event-Tabled OrderStatus.created =
      Keeps-bind _ _
        (Keeps-exec _ (λ db h. update_order-Tabled h id _ (failed_row env) (λ o. refl)))
        (λ _. mark_payment_processed-Tabled env event_id)
  apply_failed_event-Tabled _ = mark_payment_processed-Tabled env event_id

failed_view-Coupled :
    (env : Env) {n : Memory} (o : Order) (v : View)
    → v.order ≡ some o
    → Coupled n v
    → Coupled n (failed_view env o.status v)
failed_view-Coupled env o v e c = ground arith

if-Coupled :
    (b : Bool) {n : Memory} {v w : View}
    → Coupled n v
    → Coupled n w
    → Coupled n (if b then v else w)
if-Coupled true cv cw = cv
if-Coupled false cv cw = cw

-- The event does not fit the order.
abbrev pub mismatches : ℤ → String → ℤ → String → Bool
mismatches amount currency paid_amount paid_currency =
    not (int_eq paid_amount amount) || not (str_eq paid_currency currency)

module _ (plat : Platform) (env : Env) (id : ℕ) (event_id status : String) (paid_amount : ℤ)
    (paid_currency : String) where
  abbrev pub event_view : OrderStatus → ℤ → String → View → View
  event_view current amount currency v =
      if mismatches amount currency paid_amount paid_currency
      then v
      else if str_eq status "paid"
      then paid_view plat env id current v
      else failed_view env current v

  pub event_view-Coupled :
      (amount : ℤ) (currency : String) {n : Memory} (o : Order) (v : View)
      → v.order ≡ some o
      → Coupled n v
      → Coupled n (event_view o.status amount currency v)
  event_view-Coupled amount currency o v e c =
      if-Coupled (mismatches amount currency paid_amount paid_currency) c (
        if-Coupled (str_eq status "paid") (paid_view-Coupled plat env id o v e c)
          (failed_view-Coupled env o v e c))

  pub apply_payment-Acts :
      (current : OrderStatus) (amount : ℤ) (currency : String)
      → Acts id (event_view current amount currency) (
          apply_payment_to_order plat env id current amount currency event_id status paid_amount
            paid_currency)
  unfolding apply_payment_to_order
  apply_payment-Acts current amount currency =
      Acts-if _ _ _ _ _ (mark_payment_processed-Acts env id event_id) (
        Acts-if _ _ _ _ _ (apply_paid_event-Acts plat env id amount currency event_id current)
          (Acts-if-raise _ _ _ _ (apply_failed_event-Acts env id event_id current)))

  pub apply_payment-Tabled :
      (s : OrderStatus) (amount : ℤ) (currency : String)
      → Keeps Tabled (
          apply_payment_to_order plat env id s amount currency event_id status paid_amount
            paid_currency)
  unfolding apply_payment_to_order
  apply_payment-Tabled s amount currency =
      Keeps-if _ _ _ (mark_payment_processed-Tabled env event_id) (
        Keeps-if _ _ _ (apply_paid_event-Tabled plat env id amount currency event_id s)
          (Keeps-if _ _ _ (apply_failed_event-Tabled env id event_id s) (Keeps-raise _)))

module _ (plat : Platform) (env : Env) (id : ℕ) (event : PaymentWebhook) where
  open event use {event_id, status, amount, currency}

  abbrev pub event_of : Order → View → View
  event_of o =
      event_view plat env id event_id status amount currency o.status o.amount_minor o.currency

  -- A view without an order is left alone.
  abbrev pub found_view : Option Order → View → View
  found_view none v = v
  found_view (some o) v = event_of o v

  found_view-Coupled :
      {n : Memory} (r : Option Order) (v : View)
      → v.order ≡ r
      → Coupled n v
      → Coupled n (found_view r v)
  found_view-Coupled none v e c = c
  found_view-Coupled (some o) v e c =
      event_view-Coupled plat env id event_id status amount currency o.amount_minor o.currency o v e
        c

  pub apply_if_found-Acts :
      (r : Option Order) → Acts id (found_view r) (apply_if_found plat env id event r)
  unfolding apply_if_found
  apply_if_found-Acts none = record { at = λ db k. OnOk-ok (ground arith) }
  apply_if_found-Acts (some o) =
      apply_payment-Acts plat env id event_id status amount currency o.status o.amount_minor
        o.currency

  apply_if_found-Tabled : (r : Option Order) → Keeps Tabled (apply_if_found plat env id event r)
  unfolding apply_if_found
  apply_if_found-Tabled none = Keeps-pure tt
  apply_if_found-Tabled (some o) =
      apply_payment-Tabled plat env id event_id status amount currency o.status o.amount_minor
        o.currency

  pub apply_to_locked-Coherent :
      {known : ℕ → Memory} → Keeps (Coherent known) (apply_to_locked plat env id event)
  unfolding apply_to_locked
  apply_to_locked-Coherent =
      Keeps-read id (λ v. v.order) found_view (apply_if_found plat env id event) apply_if_found-Acts
        (λ n v c. found_view-Coupled v.order v refl c) apply_if_found-Tabled

pub add_event-Coherent :
    {known : ℕ → Memory} (e : PaymentEvent) (db : Db)
    → Coherent known db
    → Coherent known (add_event e db)
unfolding add_event order_of attempt_of payment_entries delivery_entries
add_event-Coherent e db c = record { keyed = ground arith; coupled = c.coupled }

parse_uuid-Keeps :
    {known : ℕ → Memory} (plat : Platform) (s : String) → Keeps (Coherent known) (parse_uuid plat s)
parse_uuid-Keeps plat s = record { at = λ db c. ground arith }

check_event-Keeps :
    {known : ℕ → Memory} (plat : Platform) (event : PaymentWebhook) (payload : String)
    → Keeps (Coherent known) (check_event plat event payload)
unfolding check_event
check_event-Keeps plat event payload =
    Keeps-bind (guard (is_storable plat event payload) invalid_value) _ (Keeps-guard _ _)
      (λ _. Keeps-guard _ _)

pub process_payment-Keeps :
    {known : ℕ → Memory} (plat : Platform) (env : Env) (event : PaymentWebhook) (payload : String)
    → Keeps (Coherent known) (process_payment plat env event payload)
unfolding process_payment
process_payment-Keeps plat env event payload =
    Keeps-bind _ _ (parse_uuid-Keeps plat event.order_id) λ id.
      Keeps-bind _ _ (check_event-Keeps plat event payload) λ _.
        Keeps-bind (gets (has_event event.event_id)) _ (Keeps-gets _) λ duplicate.
          Keeps-if duplicate _ _ (Keeps-pure tt) (
            Keeps-bind _ _ (Keeps-exec _ (add_event-Coherent (event_row env id event payload)))
              λ _. apply_to_locked-Coherent plat env id event)

-- `ProcessPayment` keeps the database coherent with what is remembered of it, whatever the event.
pub process_payment-Coherent :
    {known : ℕ → Memory} (plat : Platform) (env : Env) (event : PaymentWebhook) (payload : String)
    (db : Db)
    → Coherent known db
    → OnOk (λ r db'. Coherent known db') (process_payment plat env event payload db)
process_payment-Coherent plat env event payload db c =
    (process_payment-Keeps plat env event payload).at db c

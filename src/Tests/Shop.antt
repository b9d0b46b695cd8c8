-- ===== src/Tests/Shop.antt =====
-- A shop with one product, and an order that is created, paid, claimed and delivered.
use Prim.Native.String.{◌++◌ as append, len}
use mathlib.Core.Option
use digital_store.Prelude.{
  fits_char, char_of, false, option_any, true, String, Bool, List, [], ◌+◌, find_where, any_where,
  count_where, update_where, select_where, sort_by, insert_by, ℕ, zero, suc, leb, pos, Option, none,
  some, ◌∷◌, ◌≡◌, refl, ap, ◌<◌, arith,
}
use digital_store.Coherence.Invariant.{is_paid}
use digital_store.Model.{
  is_recoverable, Order, OrderStatus, is_processing, attempt_by_id, DeliveryAttempt, DeliveryStatus,
  has_order, insert_attempt, is_taken, add_attempt, pending_attempt, request_id_of,
  add_ledger_entry, order_of, attempt_of, update_order, update_attempts, Db, Product,
  PaymentWebhook, ok, Env, Platform, after,
}
use digital_store.Order.{
  create, product_of, find_product, new_order, add_order, insert_order, get_by_id, event_row,
  has_event, add_event, check_event, is_storable, apply_if_found, apply_to_locked, process_payment,
}
use digital_store.Order.Pending.{apply_pending_payments, pending_events, apply_events}
use digital_store.Order.Payment.{
  apply_payment_to_order, apply_paid_event, mark_created_paid, paid_row, queue_delivery,
  upsert_attempt, insert_payment_entry, payment_row, mark_payment_processed,
}
use digital_store.Delivery.Repository.Claim.{
  Job, claim_next_job, claim_if_found, claim_attempt, next_candidate, candidates, is_candidate,
  is_due, claimed_before, sku_of, mark_processing, processing_row, mark_delivering, delivering_row,
}
use digital_store.Delivery.Repository.Report.{
  mark_delivered, deliver_if_found, deliver, update_processing, mark_order_delivered,
  delivered_attempt, delivered_order, insert_delivery_entry, delivery_row,
}
use digital_store.Reconciliation.Repair.{
  repair, lacks_attempt, insert_attempts, is_unscheduled, scheduled_row, schedule_recoverable,
}
use digital_store.Delivery.Worker.Waiting.{waiting}
use digital_store.System.{opened}

-- A number in unary stands for a UUID.
abbrev pub unary : ℕ → String
unary zero = ""
unary (suc n) = String.◌∷◌ "u" (unary n)

abbrev pub from_unary : String → Option ℕ
from_unary String.[] = some 0
from_unary (String.◌∷◌ c s) = Option.map suc (from_unary s)

pub from_unary-unary : (n : ℕ) → from_unary (unary n) ≡ some n
from_unary-unary zero = refl
from_unary-unary (suc n) = ap (Option.map suc) (from_unary-unary n)

abbrev pub platform : Platform
platform = record {
  parse = from_unary;
  show = unary;
  text_le = λ s t. leb (len s) (len t);
  is_jsonb = λ s. true;
  parse-show = from_unary-unary;
}

abbrev pub game : Product
game = record {
  sku = "game";
  name = "A game";
  product_type = "key";
  price_minor = pos 500;
  currency = "RUB";
  image = none;
  active = Bool.true;
}

abbrev pub catalog : List Product
catalog = game ∷ []

abbrev pub at_time : ℕ → Env
at_time t = record { now = t; fresh_id = λ o. 100 + o }

-- Order 7 has been paid.
abbrev pub paid_7 : PaymentWebhook
paid_7 = record {
  event_id = "e1";
  order_id = unary 7;
  status = "paid";
  amount = pos 500;
  currency = "RUB";
}

abbrev pub created_db : Db
created_db = after (create platform (at_time 10) 7 "game") (opened catalog).db

abbrev pub paid_db : Db
paid_db = after (process_payment platform (at_time 20) paid_7 "{}") created_db

abbrev pub claimed_db : Db
claimed_db = after (claim_next_job (λ i. Bool.false) (at_time 30)) paid_db

abbrev pub job_7 : Job
job_7 = record {
  delivery_id = 107;
  order_id = 7;
  request_id = append (append "req-" (unary 7)) "-1";
  sku = "game";
  attempts = 1;
}

abbrev pub delivered_db : Db
delivered_db = after (mark_delivered (at_time 40) job_7 "A" "KEY-1") claimed_db

abbrev pub attempt_7 : DeliveryAttempt
attempt_7 = record {
  id = 107;
  order_id = 7;
  request_id = append (append "req-" (unary 7)) "-1";
  provider = some "A";
  status = DeliveryStatus.delivered;
  code = some "KEY-1";
  error = none;
  attempts = 1;
  next_attempt_at = none;
  locked_at = none;
  created_at = 20;
  updated_at = 40;
}

abbrev pub order_7 : Order
order_7 = record {
  id = 7;
  sku = "game";
  amount_minor = pos 500;
  currency = "RUB";
  status = OrderStatus.created;
  paid_at = none;
  delivered_at = none;
  last_error = none;
  created_at = 10;
  updated_at = 10;
}

-- The order is created and its payment commits, a worker claims the order and holds its job, and it reports the code that
-- provider A gave.
pub shop_7 :
    (process_payment platform (at_time 20) paid_7 "{}" created_db ≡ ok (tt, paid_db))
    × (claim_next_job (λ i. Bool.false) (at_time 30) paid_db ≡ ok (some job_7, claimed_db))
    × (option_any (λ d. is_processing d.status) (attempt_of 7 claimed_db) ≡ true)
    × (mark_delivered (at_time 40) job_7 "A" "KEY-1" claimed_db ≡ ok (tt, delivered_db))
    × (attempt_of 7 delivered_db ≡ some attempt_7)
    × (option_any is_paid (Option.map (λ o. o.status) (order_of 7 delivered_db)) ≡ true)
    × (order_of 7 created_db ≡ some order_7)
    × (has_event "e1" created_db ≡ false)
    × (is_taken (pending_attempt platform (at_time 20) 7) created_db ≡ false)
    × (any_where (is_candidate (λ i. Bool.false) 30 paid_db) paid_db.delivery_attempts ≡ true)
    × (any_where (is_candidate (λ i. Bool.false) 30 created_db) created_db.delivery_attempts
        ≡ false)
    × (Option.map (λ o. o.status) (order_of 7 delivered_db) ≡ some OrderStatus.delivered)
unfolding create product_of find_product new_order add_order insert_order get_by_id has_order
    apply_pending_payments pending_events apply_events event_row has_event add_event check_event
    is_storable fits_char char_of apply_if_found apply_to_locked process_payment
    apply_payment_to_order apply_paid_event mark_created_paid paid_row queue_delivery upsert_attempt
    insert_attempt is_taken add_attempt pending_attempt request_id_of insert_payment_entry
    payment_row add_ledger_entry mark_payment_processed order_of attempt_of update_order
    update_attempts find_where any_where count_where update_where select_where sort_by insert_by
    claim_next_job claim_if_found claim_attempt next_candidate candidates is_candidate is_due
    claimed_before sku_of mark_processing processing_row mark_delivering delivering_row
    mark_delivered deliver_if_found deliver update_processing mark_order_delivered delivered_attempt
    delivered_order insert_delivery_entry delivery_row attempt_by_id
shop_7 = (refl, refl, refl, refl, refl, refl, refl, refl, refl, refl, refl, refl)

-- The paid order has lost its attempt.
abbrev pub broken_db : Db
broken_db = record paid_db { delivery_attempts = [] }

abbrev pub mended_db : Db
mended_db = after (repair platform (at_time 70)) broken_db

pub repair_7 :
    repair platform (at_time 70) broken_db
    ≡ ok (record { created_delivery_jobs = 1; queued_recoverable = 0 }, mended_db)
unfolding create product_of find_product new_order add_order insert_order get_by_id has_order
    apply_pending_payments pending_events apply_events event_row has_event add_event check_event
    is_storable fits_char char_of apply_if_found apply_to_locked process_payment
    apply_payment_to_order apply_paid_event mark_created_paid paid_row queue_delivery upsert_attempt
    insert_attempt is_taken add_attempt pending_attempt request_id_of insert_payment_entry
    payment_row add_ledger_entry mark_payment_processed order_of attempt_of update_order
    update_attempts find_where any_where count_where update_where select_where sort_by insert_by
    claim_next_job claim_if_found claim_attempt next_candidate candidates is_candidate is_due
    claimed_before sku_of mark_processing processing_row mark_delivering delivering_row repair
    lacks_attempt insert_attempts is_unscheduled scheduled_row schedule_recoverable is_recoverable
repair_7 = refl

pub one_waits : waiting 30 paid_db < 2
unfolding create product_of find_product new_order add_order insert_order get_by_id has_order
    apply_pending_payments pending_events apply_events event_row has_event add_event check_event
    is_storable fits_char char_of apply_if_found apply_to_locked process_payment
    apply_payment_to_order apply_paid_event mark_created_paid paid_row queue_delivery upsert_attempt
    insert_attempt is_taken add_attempt pending_attempt request_id_of insert_payment_entry
    payment_row add_ledger_entry mark_payment_processed order_of attempt_of update_order
    update_attempts find_where any_where count_where update_where select_where sort_by insert_by
    claim_next_job claim_if_found claim_attempt next_candidate candidates is_candidate is_due
    claimed_before sku_of mark_processing processing_row mark_delivering delivering_row waiting
one_waits = omega arith

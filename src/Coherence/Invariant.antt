-- ===== src/Coherence/Invariant.antt =====
-- When the tables agree on one order, and when the whole database is coherent.
use mathlib.Core.Option
use digital_store.Prelude.{
  ℕ, ◌==◌, if◌then◌else◌, is_some, option_any, Bool, true, false, not, ◌&&◌, Option, none, some,
  ◌≡◌, UniqueBy, String, ◌⊎◌, any_where,
}
use digital_store.Model.{Db, EntryType, OrderStatus, DeliveryStatus, is_delivered, is_delivering}
use digital_store.Order.Lifecycle.{Phase, phase_of, may_follow}
use digital_store.Model.View.{View, view}

-- The status that the delivery attempt has under each status of the order.
abbrev pub expected_attempt : OrderStatus → Option DeliveryStatus
expected_attempt OrderStatus.created = none
expected_attempt OrderStatus.payment_failed = none
expected_attempt OrderStatus.paid = some DeliveryStatus.pending
expected_attempt OrderStatus.delivering = some DeliveryStatus.processing
expected_attempt OrderStatus.delivered = some DeliveryStatus.delivered
expected_attempt OrderStatus.out_of_stock = some DeliveryStatus.out_of_stock
expected_attempt OrderStatus.delivery_failed = some DeliveryStatus.failed

abbrev pub attempt_for : Option OrderStatus → Option DeliveryStatus
attempt_for none = none
attempt_for (some s) = expected_attempt s

-- The statuses of an order whose payment has been accepted.
abbrev pub is_paid : OrderStatus → Bool
is_paid OrderStatus.created = false
is_paid OrderStatus.payment_failed = false
is_paid _ = true

abbrev pub order_status : View → Option OrderStatus
order_status v = Option.map (λ o. o.status) v.order

abbrev pub one_if : Bool → ℕ
one_if b = if b then 1 else 0

-- What somebody remembers of an order: the id of its attempt, the phase of its life, and the code
-- that it was delivered with.
pub record Memory : Type 0 where
  pub attempt : Option ℕ
  pub phase : Phase
  pub code : Option String

abbrev pub delivered_code : View → Option String
delivered_code v = elim v.attempt [ none ↦ none | some d ↦ d.code ]

-- The tables agree on an order: the attempt has the status that the order's status calls for, the
-- ledger has one payment for a paid order and one delivery for a delivered one and nothing else,
-- and the dates, the code, the lease and the schedule are there exactly when they should be.
-- What is remembered of the order in `known` is still true.
pub record Coupled (known : Memory) (v : View) : Type 0 where
  pub attempt_status : Option.map (λ d. d.status) v.attempt ≡ attempt_for (order_status v)
  pub payments : v.payments ≡ one_if (option_any is_paid (order_status v))
  pub deliveries : v.deliveries ≡ one_if (option_any is_delivered (order_status v))
  pub paid_at : option_any (λ o. is_some o.paid_at) v.order ≡ option_any is_paid (order_status v)
  pub delivered_at :
      option_any (λ o. is_some o.delivered_at) v.order ≡ option_any is_delivered (order_status v)
  pub code : option_any (λ d. is_some d.code) v.attempt ≡ option_any is_delivered (order_status v)
  pub lease :
      option_any (λ d. is_some d.locked_at) v.attempt ≡ option_any is_delivering (order_status v)
  pub schedule :
      option_any (λ d. is_some d.next_attempt_at) v.attempt
      ≡ option_any (λ s. is_paid s && not (is_delivered s)) (order_status v)
  pub remembered :
      option_any (λ i. not (option_any (λ d. d.id == i) v.attempt)) known.attempt ≡ false
  pub advanced : may_follow known.phase (phase_of (order_status v)) ≡ true
  pub code_before : (known.code ≡ none) ⊎ (delivered_code v ≡ known.code)

-- The primary and unique keys of the tables hold.
pub record Keyed (db : Db) : Type 0 where
  pub order_ids : UniqueBy (λ o. o.id) db.orders
  pub attempt_ids : UniqueBy (λ d. d.id) db.delivery_attempts
  pub attempt_orders : UniqueBy (λ d. d.order_id) db.delivery_attempts

abbrev pub is_refund : EntryType → Bool
is_refund EntryType.refund = true
is_refund _ = false

-- The keys hold, and the ledger has no entry but payments and deliveries.
pub record Tabled (db : Db) : Type 0 where
  pub order_ids : UniqueBy (λ o. o.id) db.orders
  pub attempt_ids : UniqueBy (λ d. d.id) db.delivery_attempts
  pub attempt_orders : UniqueBy (λ d. d.order_id) db.delivery_attempts
  pub no_refund : any_where (λ l. is_refund l.entry_type) db.ledger_entries ≡ false

pub Tabled-Keyed : {db : Db} → Tabled db → Keyed db
Tabled-Keyed t = record {
  order_ids = t.order_ids;
  attempt_ids = t.attempt_ids;
  attempt_orders = t.attempt_orders;
}

-- `known` holds what is remembered of each order, one attempt at most: attempts are never deleted
-- and never change hands.
pub record Coherent (known : ℕ → Memory) (db : Db) : Type 0 where
  pub keyed : Tabled db
  pub coupled : (k : ℕ) → Coupled (known k) (view k db)

-- ===== src/Reconciliation/Report.antt =====
-- internal/reconciliation/service.go: `BuildReport` and its four queries.
use digital_store.Prelude.{
  ℕ, ◌+◌, length, ltb, leb, ◌==◌, is_some, option_any, Bool, not, ◌&&◌, ◌||◌, String, Option, none,
  some, List, [], ◌∷◌, ◌++◌, map, select_where, sort_by,
}
use digital_store.Model.{
  Db, Order, DeliveryAttempt, OrderStatus, DeliveryStatus, is_delivered, is_issued, payment_entries,
  delivery_entries,
}

pub data IssueType : Type 0 where
  paid_not_delivered delivered_not_paid order_status_mismatch ledger_mismatch : IssueType

pub record Issue : Type 0 where
  pub type : IssueType
  pub order_id : ℕ
  pub sku : String
  pub order_status : OrderStatus
  pub delivery_status : Option DeliveryStatus
  pub request_id : Option String
  pub paid_at : Option ℕ
  pub delivered_at : Option ℕ
  pub payment_ledger_entries : ℕ
  pub delivery_ledger_entries : ℕ
  pub description : String

-- The description of each kind of issue.
abbrev pub description_of : IssueType → String
description_of IssueType.paid_not_delivered = "payment is confirmed, but product is not delivered"
description_of IssueType.delivered_not_paid =
    "product is delivered, but payment confirmation is missing"
description_of IssueType.order_status_mismatch = "order and delivery statuses do not match"
description_of IssueType.ledger_mismatch = "ledger entries do not match the order state"

-- A row of `orders AS o LEFT JOIN delivery_attempts AS d ON d.order_id = o.id`.
pub record Joined : Type 0 where
  pub order : Order
  pub attempt : Option DeliveryAttempt

unfoldable pub attempts_of : ℕ → Db → List DeliveryAttempt
attempts_of id db = select_where (λ d. d.order_id == id) db.delivery_attempts

abbrev pub with_attempts : Order → List DeliveryAttempt → List Joined
with_attempts o [] = []
with_attempts o (d ∷ ds) = record { order = o; attempt = some d } ∷ with_attempts o ds

abbrev pub or_null : Order → List Joined → List Joined
or_null o [] = record { order = o; attempt = none } ∷ []
or_null o (r ∷ rs) = r ∷ rs

unfoldable pub left_join_from : Db → List Order → List Joined
left_join_from db [] = []
left_join_from db (o ∷ os) =
    or_null o (with_attempts o (attempts_of o.id db)) ++ left_join_from db os

unfoldable pub left_join : Db → List Joined
left_join db = left_join_from db db.orders

-- `JOIN` drops the orders that have no attempt.
unfoldable pub inner_join : Db → List Joined
inner_join db = select_where (λ r. is_some r.attempt) (left_join db)

unfoldable pub issue_row : IssueType → Db → Joined → Issue
issue_row type db r = record {
  type = type;
  order_id = r.order.id;
  sku = r.order.sku;
  order_status = r.order.status;
  delivery_status = elim r.attempt [ none ↦ none | some d ↦ some d.status ];
  request_id = elim r.attempt [ none ↦ none | some d ↦ some d.request_id ];
  paid_at = r.order.paid_at;
  delivered_at = r.order.delivered_at;
  payment_ledger_entries = payment_entries r.order.id db;
  delivery_ledger_entries = delivery_entries r.order.id db;
  description = description_of type;
}

-- `ORDER BY o.created_at, o.id`
unfoldable pub created_before : Joined → Joined → Bool
created_before a b =
    ltb a.order.created_at b.order.created_at
    || ((a.order.created_at == b.order.created_at) && leb a.order.id b.order.id)

-- `SELECT … FROM rows WHERE p ORDER BY o.created_at, o.id`
unfoldable pub issues : IssueType → Db → (Joined → Bool) → List Joined → List Issue
issues type db p rows = map (issue_row type db) (sort_by created_before (select_where p rows))

-- The attempt of the row has been delivered; false at NULL.
abbrev pub issued : Joined → Bool
issued r = option_any (λ d. is_issued d.status) r.attempt

unfoldable pub is_paid_not_delivered : Db → Joined → Bool
is_paid_not_delivered db r =
    (is_some r.order.paid_at || not (payment_entries r.order.id db == 0)) && not (issued r)

unfoldable pub is_delivered_not_paid : Db → Joined → Bool
is_delivered_not_paid db r =
    issued r && (not (is_some r.order.paid_at) || (payment_entries r.order.id db == 0))

unfoldable pub is_status_mismatch : Joined → Bool
is_status_mismatch r =
    (is_delivered r.order.status && not (issued r))
    || (not (is_delivered r.order.status) && issued r)

unfoldable pub is_ledger_mismatch : Db → Joined → Bool
is_ledger_mismatch db r =
    (is_some r.order.paid_at && not (payment_entries r.order.id db == 1))
    || (is_delivered r.order.status && not (delivery_entries r.order.id db == 1))

unfoldable pub find_paid_not_delivered : Db → List Issue
find_paid_not_delivered db =
    issues IssueType.paid_not_delivered db (is_paid_not_delivered db) (left_join db)

unfoldable pub find_delivered_not_paid : Db → List Issue
find_delivered_not_paid db =
    issues IssueType.delivered_not_paid db (is_delivered_not_paid db) (inner_join db)

unfoldable pub find_status_mismatches : Db → List Issue
find_status_mismatches db =
    issues IssueType.order_status_mismatch db is_status_mismatch (inner_join db)

unfoldable pub find_ledger_mismatches : Db → List Issue
find_ledger_mismatches db =
    issues IssueType.ledger_mismatch db (is_ledger_mismatch db) (left_join db)

pub record Summary : Type 0 where
  pub paid_not_delivered : ℕ
  pub delivered_not_paid : ℕ
  pub status_mismatches : ℕ
  pub ledger_mismatches : ℕ
  pub total : ℕ

pub record Report : Type 0 where
  pub generated_at : ℕ
  pub paid_not_delivered : List Issue
  pub delivered_not_paid : List Issue
  pub status_mismatches : List Issue
  pub ledger_mismatches : List Issue
  pub summary : Summary

unfoldable pub summarise : List Issue → List Issue → List Issue → List Issue → Summary
summarise undelivered unpaid statuses ledger = record {
  paid_not_delivered = length undelivered;
  delivered_not_paid = length unpaid;
  status_mismatches = length statuses;
  ledger_mismatches = length ledger;
  total = length undelivered + length unpaid + length statuses + length ledger;
}

-- `BuildReport`: the four queries are not in a transaction, so each sees a database of its own.
unfoldable pub build_report : ℕ → Db → Db → Db → Db → Report
build_report now db1 db2 db3 db4 =
    let undelivered = find_paid_not_delivered db1 in
    let unpaid = find_delivered_not_paid db2 in
    let statuses = find_status_mismatches db3 in
    let ledger = find_ledger_mismatches db4 in
    record {
      generated_at = now;
      paid_not_delivered = undelivered;
      delivered_not_paid = unpaid;
      status_mismatches = statuses;
      ledger_mismatches = ledger;
      summary = summarise undelivered unpaid statuses ledger;
    }

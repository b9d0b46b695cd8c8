-- ===== src/Coherence/Audit.antt =====
-- What the reconciliation report says of a coherent database.
use mathlib.Core.List.{map}
use digital_store.Prelude.{
  ℕ, suc, is_some, Bool, false, not, ◌&&◌, some, ◌≡◌, refl, ap, ◌∙◌, arith, any_where, select_where,
  count_where, List, [], ◌∷◌, length, sort_by,
}
use digital_store.Prelude.Rows.{
  any_where-none, count_where-same, select_where-UniqueBy, length-sort_by, length-select_where,
}
use digital_store.Model.{Db, Order, order_of, attempt_of, is_delivered}
use digital_store.Reconciliation.Report.{
  IssueType, Issue, Joined, attempts_of, left_join_from, left_join, inner_join, issue_row,
  created_before, issues, is_paid_not_delivered, is_delivered_not_paid, is_status_mismatch,
  is_ledger_mismatch, find_paid_not_delivered, find_delivered_not_paid, find_status_mismatches,
  find_ledger_mismatches, summarise, build_report,
}
use digital_store.Coherence.Invariant.{Memory, Tabled, Coherent, is_paid}

-- The row of an order in the join.
abbrev row_of : Db → Order → Joined
row_of db o = record { order = o; attempt = attempt_of o.id db }

-- Where an order has one attempt at most, the join has one row for each order.
left_join_from-Tabled :
    (db : Db) (os : List Order) → Tabled db → left_join_from db os ≡ map (row_of db) os
unfolding left_join_from attempts_of attempt_of
left_join_from-Tabled db [] keyed = refl
left_join_from-Tabled db (o ∷ os) keyed = ground (
  arith,
  select_where-UniqueBy (λ d. d.order_id) o.id db.delivery_attempts keyed.attempt_orders,
  left_join_from-Tabled db os keyed,
)

count_where-map :
    (f : Order → Joined) (p : Joined → Bool) (os : List Order)
    → count_where p (map f os) ≡ count_where (λ o. p (f o)) os
unfolding count_where
count_where-map f p [] = refl
count_where-map f p (o ∷ os) = ground (arith, count_where-map f p os)

select_where-map :
    (f : Order → Joined) (p : Joined → Bool) (os : List Order)
    → any_where (λ o. p (f o)) os ≡ false
    → select_where p (map f os) ≡ []
unfolding select_where any_where
select_where-map f p [] h = refl
select_where-map f p (o ∷ os) h = ground (arith, select_where-map f p os)

select_where-select_where :
    (p q : Joined → Bool) (rs : List Joined)
    → select_where p rs ≡ []
    → select_where p (select_where q rs) ≡ []
unfolding select_where
select_where-select_where p q [] h = refl
select_where-select_where p q (r ∷ rs) h = ground (arith, select_where-select_where p q rs)

length-map : (f : Joined → Issue) (rs : List Joined) → length (map f rs) ≡ length rs
unfolding length
length-map f [] = refl
length-map f (r ∷ rs) = ap suc (length-map f rs)

-- A query returns as many issues as there are rows that pass its test.
length-issues :
    (type : IssueType) (db : Db) (p : Joined → Bool) (rs : List Joined)
    → length (issues type db p rs) ≡ count_where p rs
unfolding issues
length-issues type db p rs =
    length-map (issue_row type db) (sort_by created_before (select_where p rs))
    ∙ length-sort_by created_before (select_where p rs)
    ∙ length-select_where p rs

no_issues :
    (type : IssueType) (db : Db) (p : Joined → Bool) (rs : List Joined)
    → select_where p rs ≡ []
    → issues type db p rs ≡ []
unfolding issues sort_by
no_issues type db p rs h = ap (λ xs. map (issue_row type db) (sort_by created_before xs)) h

module _ {known : ℕ → Memory} {db : Db} (c : Coherent known db) where
  -- A test that fails on the row of every order selects no row of the join.
  none_joined :
      (p : Joined → Bool)
      → ((o : Order) → order_of o.id db ≡ some o → p (row_of db o) ≡ false)
      → select_where p (left_join db) ≡ []
  unfolding left_join order_of
  none_joined p h =
      ap (select_where p) (left_join_from-Tabled db db.orders c.keyed)
      ∙ select_where-map (row_of db) p db.orders
          (any_where-none (λ o. o.id) (λ o. p (row_of db o)) db.orders c.keyed.order_ids h)

  find_delivered_not_paid-Coherent : find_delivered_not_paid db ≡ []
  unfolding find_delivered_not_paid inner_join is_delivered_not_paid
  find_delivered_not_paid-Coherent = no_issues _ db _ _ (
      select_where-select_where _ (λ r. is_some r.attempt) (left_join db)
        (none_joined (is_delivered_not_paid db) (λ o e. ground (arith, c.coupled o.id))))

  find_status_mismatches-Coherent : find_status_mismatches db ≡ []
  unfolding find_status_mismatches inner_join is_status_mismatch
  find_status_mismatches-Coherent = no_issues _ db _ _ (
      select_where-select_where _ (λ r. is_some r.attempt) (left_join db)
        (none_joined is_status_mismatch (λ o e. ground (arith, c.coupled o.id))))

  find_ledger_mismatches-Coherent : find_ledger_mismatches db ≡ []
  unfolding find_ledger_mismatches is_ledger_mismatch
  find_ledger_mismatches-Coherent =
      no_issues _ db _ _
        (none_joined (is_ledger_mismatch db) (λ o e. ground (arith, c.coupled o.id)))

  find_paid_not_delivered-Coherent :
      length (find_paid_not_delivered db)
      ≡ count_where (λ o. is_paid o.status && not (is_delivered o.status)) db.orders
  unfolding find_paid_not_delivered left_join is_paid_not_delivered order_of
  find_paid_not_delivered-Coherent =
      length-issues _ db _ _
      ∙ ap (count_where (is_paid_not_delivered db)) (left_join_from-Tabled db db.orders c.keyed)
      ∙ count_where-map (row_of db) (is_paid_not_delivered db) db.orders
      ∙ count_where-same (λ o. o.id) _ _ db.orders c.keyed.order_ids
          (λ o e. ground (arith, c.coupled o.id))

-- A report whose queries see coherent databases lists no delivered order without a payment, no
-- mismatch of statuses and none of ledger entries, and its total is the number of orders that are
-- paid and not yet delivered.
pub build_report-Coherent :
    {known1 known2 known3 known4 : ℕ → Memory} (now : ℕ) (db1 db2 db3 db4 : Db)
    → Coherent known1 db1
    → Coherent known2 db2
    → Coherent known3 db3
    → Coherent known4 db4
    → ((build_report now db1 db2 db3 db4).delivered_not_paid ≡ [])
      × ((build_report now db1 db2 db3 db4).status_mismatches ≡ [])
      × ((build_report now db1 db2 db3 db4).ledger_mismatches ≡ [])
      × ((build_report now db1 db2 db3 db4).summary.total
          ≡ count_where (λ o. is_paid o.status && not (is_delivered o.status)) db1.orders)
unfolding build_report summarise length
build_report-Coherent now db1 db2 db3 db4 c1 c2 c3 c4 = ground (
  arith,
  find_delivered_not_paid-Coherent c2,
  find_status_mismatches-Coherent c3,
  find_ledger_mismatches-Coherent c4,
  find_paid_not_delivered-Coherent c1,
)

-- ===== src/System/Safety.antt =====
-- What holds of the store whatever is done to it and in whatever order.
use digital_store.Prelude.{
  any_where, false, ℕ, ◌&&◌, count_where, true, not, String, some, List, [], ◌≡◌, ◌∙◌, arith,
  option_any, Option, none, ap, subst,
}
use mathlib.Core.Option
use digital_store.Model.{
  Product, ok, Env, Platform, order_of, attempt_of, DeliveryAttempt, payment_entries,
  delivery_entries, is_delivered, OrderStatus, is_final,
}
use digital_store.Order.Lifecycle.{Life, phase_of, may_follow, may_follow-Life}
use digital_store.Model.View.{View, view}
use digital_store.Reconciliation.Report.{build_report}
use digital_store.Reconciliation.Repair.{repair}
use digital_store.Coherence.Invariant.{
  Memory, Tabled, is_refund, Coupled, is_paid, order_status, attempt_for, one_if, delivered_code,
}
use digital_store.Coherence.Audit.{build_report-Coherent}
use digital_store.Coherence.Repairs.{repair-Coherent}
use digital_store.System.{State, Run, opened}
use digital_store.System.Sound.{Sound, Run-Sound, opened-Sound, seen-Sound}

-- What a coupled view says of the memory.
paid_before-Coupled :
    {n : Memory} (p : Option OrderStatus) (v : View)
    → Coupled n v
    → n.phase ≡ phase_of p
    → option_any is_paid p ≡ true
    → option_any is_paid (order_status v) ≡ true
paid_before-Coupled (some o) v c e h = ground arith
paid_before-Coupled none v c e h = ground arith

final_before-Coupled :
    {n : Memory} {p : OrderStatus} (v : View)
    → Coupled n v
    → n.phase ≡ phase_of (some p)
    → is_final p ≡ true
    → order_status v ≡ some p
unfolding is_final
final_before-Coupled v c e h = ground arith

code_before-Coupled :
    {n : Memory} {code : String} (v : View)
    → Coupled n v
    → n.code ≡ some code
    → (option_any is_delivered (order_status v) ≡ true) × (delivered_code v ≡ some code)
code_before-Coupled v c q = ground arith

module _ {plat : Platform} {products : List Product} {s : State}
    (run : Run plat (opened products) s) where
  reached : (known : ℕ → Memory) × Sound known s
  reached = let (known, h, g) = Run-Sound (opened-Sound products) run in (known, h)

  -- In every state that the store reaches, the status of an order's delivery attempt is the one
  -- that the order's status calls for, and an order without a payment has no attempt.
  pub run-attempt_status :
      (k : ℕ)
      → Option.map (λ d. d.status) (attempt_of k s.db)
        ≡ attempt_for (Option.map (λ o. o.status) (order_of k s.db))
  run-attempt_status k = (reached.1.coherent.coupled k).attempt_status

  -- In every state that the store reaches, the ledger has one payment for each paid order, one
  -- delivery for each delivered order, and no other entry: no other payment or delivery, and no refund.
  pub run-ledger :
      (k : ℕ)
      → (payment_entries k s.db
          ≡ one_if (option_any is_paid (Option.map (λ o. o.status) (order_of k s.db))))
        × (delivery_entries k s.db
            ≡ one_if (option_any is_delivered (Option.map (λ o. o.status) (order_of k s.db))))
        × (any_where (λ l. is_refund l.entry_type) s.db.ledger_entries ≡ false)
  run-ledger k = (
    (reached.1.coherent.coupled k).payments,
    (reached.1.coherent.coupled k).deliveries,
    reached.1.coherent.keyed.no_refund,
  )

  -- In every state that the store reaches, the keys of the tables hold, an order has one row and one
  -- delivery attempt at most, and no ledger entry is a refund.
  pub run-Tabled : Tabled s.db
  run-Tabled = reached.1.coherent.keyed

  -- A repair of a state that the store reaches by itself finds nothing to do.
  pub run-repair :
      (env : Env)
      → repair plat env s.db
        ≡ ok (record { created_delivery_jobs = 0; queued_recoverable = 0 }, s.db)
  run-repair env = repair-Coherent reached.1.coherent plat env

  -- A report of a state that the store reaches lists no delivered order without a payment, no
  -- mismatch of statuses and none of ledger entries, and as many issues as there are orders that
  -- are paid and not yet delivered.
  pub run-build_report :
      (now : ℕ)
      → ((build_report now s.db s.db s.db s.db).delivered_not_paid ≡ [])
        × ((build_report now s.db s.db s.db s.db).status_mismatches ≡ [])
        × ((build_report now s.db s.db s.db s.db).ledger_mismatches ≡ [])
        × ((build_report now s.db s.db s.db s.db).summary.total
            ≡ count_where (λ o. is_paid o.status && not (is_delivered o.status)) s.db.orders)
  run-build_report now =
      let c = reached.1.coherent in build_report-Coherent now s.db s.db s.db s.db c c c c

  module _ {s' : State} (later : Run plat s s') (k : ℕ) where
    -- What is seen of an order is remembered later.
    remembered :
        (n : Memory) × Coupled n (view k s'.db)
        × (n.phase ≡ phase_of (order_status (view k s.db)))
        × (n.code ≡ delivered_code (view k s.db))
    remembered =
        let (known, h, g) = Run-Sound (seen-Sound reached.1) later in
        (known k, h.coherent.coupled k, g.phase k, g.code k)

    -- An order that has been paid is never unpaid again, whatever happens later.
    pub run-paid :
        option_any is_paid (Option.map (λ o. o.status) (order_of k s.db)) ≡ true
        → option_any is_paid (Option.map (λ o. o.status) (order_of k s'.db)) ≡ true
    run-paid h = let (n, c, p, q) = remembered in paid_before-Coupled _ (view k s'.db) c p h

    -- What happens to an order between any two states that the store reaches is a part of its life:
    -- it is registered once, its payment is accepted or refused once, and it is fulfilled once, only
    -- after its payment was accepted.
    pub run-Life :
        Life
          (phase_of (Option.map (λ o. o.status) (order_of k s.db)))
          (phase_of (Option.map (λ o. o.status) (order_of k s'.db)))
    run-Life =
        let (n, c, p, q) = remembered in
        may_follow-Life _ _
          (subst (λ x. may_follow x (phase_of (order_status (view k s'.db))) ≡ true) p c.advanced)

    -- A final status, delivered or payment failed, is never left again.
    pub run-is_final :
        {o : OrderStatus}
        → Option.map (λ o. o.status) (order_of k s.db) ≡ some o
        → is_final o ≡ true
        → Option.map (λ o. o.status) (order_of k s'.db) ≡ some o
    run-is_final h f =
        let (n, c, p, q) = remembered in final_before-Coupled (view k s'.db) c (p ∙ ap phase_of h) f

    -- The code that an order was delivered with is never lost or replaced: later the order is
    -- still delivered, with the same code.
    pub run-code :
        (code : String) {d : DeliveryAttempt}
        → attempt_of k s.db ≡ some d
        → d.code ≡ some code
        → (option_any is_delivered (Option.map (λ o. o.status) (order_of k s'.db)) ≡ true)
          × (delivered_code (view k s'.db) ≡ some code)
    run-code code {d} e f =
        let (n, c, p, q) = remembered in
        code_before-Coupled (view k s'.db) c (q ∙ ground (arith, e, f))

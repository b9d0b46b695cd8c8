-- ===== src/Tests/Examples.antt =====
-- Each result about the database, applied to the shop.
use mathlib.Core.Option
use digital_store.Prelude.{
  ℕ, ◌==◌, str_eq, any_where, false, [], some, true, false, refl, ◌≡◌, ◌&&◌, not, count_where,
  option_any,
}
use digital_store.Model.{
  DeliveryAttempt, Db, ok, is_final, OrderStatus, is_delivered, order_of, attempt_of,
  payment_entries, delivery_entries,
}
use digital_store.Model.View.{view}
use digital_store.Prelude.{fits_char}
use digital_store.Order.{is_storable, process_payment}
use digital_store.Delivery.Repository.Claim.{Job, is_candidate, claimed_before, claim_next_job}
use digital_store.Delivery.Repository.Report.{mark_delivered}
use digital_store.Reconciliation.Repair.{repair}
use digital_store.Reconciliation.Report.{build_report}
use digital_store.Coherence.Invariant.{
  Coherent, Tabled-Keyed, is_refund, is_paid, attempt_for, one_if, order_status, delivered_code,
}
use digital_store.Coherence.Keeps.{OnOk}
use digital_store.Coherence.Orders.{process_payment-Coherent}
use digital_store.Coherence.Jobs.{remember_job, claim_next_job-Coherent}
use digital_store.Coherence.Repairs.{repair-Coherent}
use digital_store.Coherence.Audit.{build_report-Coherent}
use digital_store.Coherence.Duplicates.{process_payment-again, mark_delivered-again}
use digital_store.Coherence.Settles.{settled_status, process_payment-settles}
use digital_store.Coherence.Orders.{mismatches}
use digital_store.Coherence.Queue.{claim_next_job-first}
use digital_store.Coherence.Commits.{mark_delivered-held}
use digital_store.System.Sound.{unknown}
use digital_store.System.Safety.{
  run-ledger, run-code, run-paid, run-attempt_status, run-Life, run-is_final,
}
use digital_store.Order.Lifecycle.{Life, phase_of}
use digital_store.Coherence.Mending.{is_unserved, is_stranded, repair-mends}
use digital_store.Tests.Shop.{
  broken_db, mended_db, repair_7, order_7, shop_7, platform, at_time, paid_7, created_db, paid_db,
  claimed_db, job_7, delivered_db, attempt_7,
}
use digital_store.Tests.States.{
  created-Coherent, paid-Coherent, claimed-Coherent_7, delivered-Run, later_db, later-Run,
}

run-ledger_example :
    (payment_entries 7 delivered_db
      ≡ one_if (option_any is_paid (Option.map (λ o. o.status) (order_of 7 delivered_db))))
    × (delivery_entries 7 delivered_db
        ≡ one_if (option_any is_delivered (Option.map (λ o. o.status) (order_of 7 delivered_db))))
    × (any_where (λ l. is_refund l.entry_type) delivered_db.ledger_entries ≡ false)
run-ledger_example = run-ledger delivered-Run 7

run-code_example :
    (option_any is_delivered (Option.map (λ o. o.status) (order_of 7 later_db)) ≡ true)
    × (delivered_code (view 7 later_db) ≡ some "KEY-1")
run-code_example = run-code delivered-Run later-Run 7 "KEY-1" {d = attempt_7} shop_7.4 refl

run-attempt_status_example :
    Option.map (λ d. d.status) (attempt_of 7 delivered_db)
    ≡ attempt_for (Option.map (λ o. o.status) (order_of 7 delivered_db))
run-attempt_status_example = run-attempt_status delivered-Run 7

run-paid_example : option_any is_paid (Option.map (λ o. o.status) (order_of 7 later_db)) ≡ true
run-paid_example = run-paid delivered-Run later-Run 7 shop_7.5

run-Life_example :
    Life
      (phase_of (Option.map (λ o. o.status) (order_of 7 delivered_db)))
      (phase_of (Option.map (λ o. o.status) (order_of 7 later_db)))
run-Life_example = run-Life delivered-Run later-Run 7

run-is_final_example : Option.map (λ o. o.status) (order_of 7 later_db) ≡ some OrderStatus.delivered
unfolding is_final
run-is_final_example = run-is_final delivered-Run later-Run 7 shop_7.11 refl

process_payment-Coherent_example :
    OnOk
      (λ u db'. Coherent unknown db')
      (process_payment platform (at_time 20) paid_7 "{}" created_db)
process_payment-Coherent_example =
    process_payment-Coherent platform (at_time 20) paid_7 "{}" created_db created-Coherent

process_payment-again_example :
    process_payment platform (at_time 25) paid_7 "[]" paid_db ≡ ok (tt, paid_db)
process_payment-again_example =
    process_payment-again platform (at_time 20) (at_time 25) paid_7 "{}" "[]" created_db paid_db
      shop_7.0

mark_delivered-again_example :
    mark_delivered (at_time 45) job_7 "B" "KEY-2" delivered_db ≡ ok (tt, delivered_db)
mark_delivered-again_example =
    mark_delivered-again (at_time 40) (at_time 45) job_7 "A" "KEY-1" "B" "KEY-2" claimed_db
      delivered_db (Tabled-Keyed claimed-Coherent_7.keyed) shop_7.3

claim_next_job-Coherent_example :
    OnOk
      (λ job db'. Coherent (remember_job job unknown) db')
      (claim_next_job (λ i. false) (at_time 30) paid_db)
claim_next_job-Coherent_example =
    claim_next_job-Coherent (λ i. false) (at_time 30) unknown paid_db paid-Coherent

repair-Coherent_example :
    repair platform (at_time 25) paid_db
    ≡ ok (record { created_delivery_jobs = 0; queued_recoverable = 0 }, paid_db)
repair-Coherent_example = repair-Coherent paid-Coherent platform (at_time 25)

mark_delivered-held_example :
    (db' : Db) × (mark_delivered (at_time 40) job_7 "A" "KEY-1" claimed_db ≡ ok (tt, db'))
    × (order_status (view 7 db') ≡ some OrderStatus.delivered)
    × (delivered_code (view 7 db') ≡ some "KEY-1")
    × (delivery_entries 7 db' ≡ 1)
mark_delivered-held_example =
    mark_delivered-held (at_time 40) claimed-Coherent_7 job_7 refl shop_7.2 "A" "KEY-1"

build_report-Coherent_example :
    ((build_report 90 paid_db paid_db claimed_db claimed_db).delivered_not_paid ≡ [])
    × ((build_report 90 paid_db paid_db claimed_db claimed_db).status_mismatches ≡ [])
    × ((build_report 90 paid_db paid_db claimed_db claimed_db).ledger_mismatches ≡ [])
    × ((build_report 90 paid_db paid_db claimed_db claimed_db).summary.total
        ≡ count_where (λ o. is_paid o.status && not (is_delivered o.status)) paid_db.orders)
build_report-Coherent_example =
    build_report-Coherent 90 paid_db paid_db claimed_db claimed_db paid-Coherent paid-Coherent
      claimed-Coherent_7 claimed-Coherent_7

paid_7_storable : is_storable platform paid_7 "{}" ≡ true
unfolding is_storable fits_char
paid_7_storable = refl

process_payment-settles_example :
    (db' : Db) × (process_payment platform (at_time 20) paid_7 "{}" created_db ≡ ok (tt, db'))
    × ((k : ℕ) → (7 == k) ≡ false → view k db' ≡ view k created_db)
    × (order_status (view 7 db')
        ≡ some (
            settled_status
              (mismatches order_7.amount_minor order_7.currency paid_7.amount paid_7.currency)
              (str_eq paid_7.status "paid")
              order_7.status))
    × (Option.map (λ d. d.status) (attempt_of 7 db')
        ≡ attempt_for (
            some (
              settled_status
                (mismatches order_7.amount_minor order_7.currency paid_7.amount paid_7.currency)
                (str_eq paid_7.status "paid")
                order_7.status)))
    × (payment_entries 7 db'
        ≡ one_if (
            is_paid (
              settled_status
                (mismatches order_7.amount_minor order_7.currency paid_7.amount paid_7.currency)
                (str_eq paid_7.status "paid")
                order_7.status)))
process_payment-settles_example =
    process_payment-settles platform (at_time 20) paid_7 "{}" 7 created-Coherent order_7 refl
      shop_7.6 paid_7_storable refl refl shop_7.7 (λ _. shop_7.8)

claim_next_job-first_example :
    (job : Job) × (db' : Db) × (d : DeliveryAttempt) × (claim_next_job
        (λ i. false)
        (at_time 30)
        paid_db
      ≡ ok (some job, db'))
    × (attempt_of job.order_id paid_db ≡ some d)
    × (d.id ≡ job.delivery_id)
    × (is_candidate (λ i. false) 30 paid_db d ≡ true)
    × (any_where
          (λ x. is_candidate (λ i. false) 30 paid_db x && not (claimed_before d x))
          paid_db.delivery_attempts
        ≡ false)
claim_next_job-first_example =
    claim_next_job-first (λ i. false) (at_time 30) paid_db paid-Coherent shop_7.9

repair-mends_example :
    (any_where (is_unserved mended_db) mended_db.orders ≡ false)
    × (any_where (is_stranded mended_db) mended_db.delivery_attempts ≡ false)
    × (mended_db.orders ≡ broken_db.orders)
repair-mends_example =
    repair-mends platform (at_time 70)
      (record { created_delivery_jobs = 1; queued_recoverable = 0 }) broken_db mended_db repair_7

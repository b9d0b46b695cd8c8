-- ===== src/Tests/Work.antt =====
-- Each result about the worker, applied to the shop.
use digital_store.Prelude.{some, none, [], ◌∷◌, true, false, not, refl, ◌≡◌, ◌&&◌, any_where}
use digital_store.Model.{DeliveryAttempt, attempt_of}
use digital_store.Model.View.{view}
use digital_store.Delivery.Repository.Claim.{Job, is_candidate, claimed_before}
use digital_store.Delivery.Worker.{Turn, Round, Wake, process_next, run}
use digital_store.Delivery.Worker.Turns.{Settled, outcome_of, due_at, process_next-Settled}
use digital_store.Delivery.Worker.Runs.{Reaches, run-Run}
use digital_store.Reconciliation.Loop.{Tick, tick, done, stopped, run_repair_loop}
use digital_store.Reconciliation.Loop.Runs.{run_repair_loop-quiet}
use digital_store.System.Runs.{idle-IsRun}
use digital_store.Tests.Shop.{platform, at_time, paid_db, shop_7}
use digital_store.Tests.States.{state_of, paid-Coherent}
use digital_store.Tests.Deliveries.{s2, never}

-- A turn that nobody else interferes with.
abbrev turn_30 : Turn
turn_30 = record {
  before = λ db. db;
  locked = λ i. false;
  claim_env = at_time 30;
  lost = none;
  service = s2;
  a_cancelled = never;
  b_cancelled = never;
  meanwhile = λ db. db;
  report_env = at_time 40;
  done = false;
}

abbrev round_30 : Round
round_30 = record { turn = turn_30; wake = Wake.recovery (at_time 70) }

abbrev last_30 : Round
last_30 = record { turn = turn_30; wake = Wake.stopped }

abbrev tick_50 : Tick
tick_50 = record { before = λ db. db; env = at_time 50; lost = none }

run_repair_loop-quiet_example :
    run_repair_loop platform tick_50 (tick tick_50 ∷ done ∷ []) paid_db
    ≡ record { ended = stopped; db = paid_db }
run_repair_loop-quiet_example =
    run_repair_loop-quiet platform tick_50 (tick tick_50 ∷ done ∷ []) paid_db
      (record { connected = refl; keeps = λ db c. c })
      (record { connected = refl; keeps = λ db c. c }, tt) paid-Coherent

run-Run_example :
    Reaches platform (state_of paid_db []) (run platform (round_30 ∷ round_30 ∷ []) paid_db).db
run-Run_example = run-Run platform (round_30 ∷ round_30 ∷ []) (state_of paid_db []) (
  record { before = idle-IsRun; meanwhile = idle-IsRun },
  (record { before = idle-IsRun; meanwhile = idle-IsRun }, tt),
)

process_next-Settled_example :
    (job : Job) × (d : DeliveryAttempt) × (attempt_of job.order_id paid_db ≡ some d)
    × (is_candidate (λ i. false) 30 paid_db d ≡ true)
    × (any_where
          (λ x. is_candidate (λ i. false) 30 paid_db x && not (claimed_before d x))
          paid_db.delivery_attempts
        ≡ false)
    × ((process_next platform turn_30 paid_db).processed ≡ true)
    × ((process_next platform turn_30 paid_db).error ≡ none)
    × Settled
        (due_at platform turn_30)
        (outcome_of platform turn_30 job)
        (view job.order_id (process_next platform turn_30 paid_db).db)
process_next-Settled_example =
    process_next-Settled platform turn_30 paid_db paid-Coherent shop_7.9 refl refl
      (record { keeps = λ known db c. c; holds = λ job db h. h })

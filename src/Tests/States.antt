-- ===== src/Tests/States.antt =====
-- The databases of the shop are coherent, and they are reached.
use mathlib.Core.List.{Memᴰ}
use digital_store.Prelude.{ℕ, List, [], ◌∷◌, some, Bool, ap, refl, subst}
use digital_store.Reconciliation.Retry.{retry_delivery}
use digital_store.Model.{err, Tx, Db, ok, Result, after}
use digital_store.Order.{create, process_payment}
use digital_store.Delivery.Repository.Claim.{Job}
use digital_store.Delivery.Repository.Report.{mark_delivered}
use digital_store.Coherence.Invariant.{Memory, Coherent}
use digital_store.Coherence.Keeps.{Keeps-after, of_OnOk}
use digital_store.Coherence.Orders.{process_payment-Keeps}
use digital_store.Coherence.Create.{create-Keeps}
use digital_store.Coherence.Jobs.{remember_job, claim_next_job-Coherent}
use digital_store.System.{State, Step, Run, opened, committed, claimed}
use digital_store.System.Sound.{unknown, opened-Sound}
use digital_store.Tests.Shop.{
  shop_7, platform, catalog, at_time, paid_7, created_db, paid_db, claimed_db, job_7, delivered_db,
}

pub opened-Coherent : Coherent unknown (opened catalog).db
opened-Coherent = (opened-Sound catalog).coherent

pub created-Coherent : Coherent unknown created_db
created-Coherent =
    Keeps-after (create platform (at_time 10) 7 "game") _
      (create-Keeps platform (at_time 10) 7 "game") opened-Coherent

pub paid-Coherent : Coherent unknown paid_db
paid-Coherent =
    Keeps-after (process_payment platform (at_time 20) paid_7 "{}") _
      (process_payment-Keeps platform (at_time 20) paid_7 "{}") created-Coherent

-- What the worker of order 7 remembers.
abbrev pub holding_7 : ℕ → Memory
holding_7 = remember_job (some job_7) unknown

pub claimed-Coherent_7 : Coherent holding_7 claimed_db
claimed-Coherent_7 =
    of_OnOk (claim_next_job-Coherent (λ i. Bool.false) (at_time 30) unknown paid_db paid-Coherent)
      shop_7.1

abbrev pub state_of : Db → List Job → State
state_of db jobs = record { db = db; jobs = jobs }

-- The state after a step, by the database after its transaction.
then_after :
    {A : Type 0} {s0 s : State} (m : Tx A)
    → Run platform s0 s
    → Step platform s (committed s (m s.db))
    → Run platform s0 (record s { db = after m s.db })
then_after {A} {s0} {s} m run step = go (m s.db) (Run.then run step)
  where
    go :
        (r : Result (A × Db))
        → Run platform s0 (committed s r)
        → Run platform s0 (record s { db = after (λ db. r) s.db })
    go (ok (a, db)) h = h
    go (err e) h = h

paid-Run : Run platform (opened catalog) (state_of paid_db [])
paid-Run =
    then_after (process_payment platform (at_time 20) paid_7 "{}")
      (then_after {s = opened catalog} (create platform (at_time 10) 7 "game") Run.idle
        (Step.order_created (at_time 10) 7 "game"))
      (Step.payment_received (at_time 20) paid_7 "{}")

pub claimed-Run : Run platform (opened catalog) (state_of claimed_db (job_7 ∷ []))
claimed-Run =
    subst (Run platform (opened catalog)) (ap (claimed (state_of paid_db [])) shop_7.1)
      (Run.then paid-Run (Step.job_claimed (λ i. Bool.false) (at_time 30)))

-- Order 7 is delivered.
abbrev pub delivered_state : State
delivered_state = state_of delivered_db (job_7 ∷ [])

pub delivered-Run : Run platform (opened catalog) delivered_state
delivered-Run =
    then_after (mark_delivered (at_time 40) job_7 "A" "KEY-1") claimed-Run
      (Step.job_delivered (at_time 40) job_7 "A" "KEY-1" (Memᴰ.head refl))

-- A second payment event for the order, and a retry of the delivery, after it was delivered.
abbrev pub later_db : Db
later_db = after (retry_delivery platform (at_time 60) 7) (
    after (process_payment platform (at_time 50) (record paid_7 { event_id = "e2" }) "{}")
      delivered_db)

pub later-Run : Run platform delivered_state (state_of later_db (job_7 ∷ []))
later-Run =
    then_after (retry_delivery platform (at_time 60) 7)
      (then_after {s = delivered_state}
        (process_payment platform (at_time 50) (record paid_7 { event_id = "e2" }) "{}") Run.idle
        (Step.payment_received (at_time 50) (record paid_7 { event_id = "e2" }) "{}"))
      (Step.delivery_retried (at_time 60) 7)

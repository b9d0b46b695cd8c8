-- ===== src/Delivery/Worker/Fewer.antt =====
-- A claim and a report leave fewer deliveries that are due.

use digital_store.Prelude.{
  ℕ, ◌+◌, ◌<◌, ltb, leb, is_some, Bool, true, not, ◌||◌, String, Option, none, some, ◌≡◌, refl,
  arith,
}
use digital_store.Model.{
  Db, DeliveryAttempt, DeliveryStatus, OrderStatus, Env, order_of, is_processing, add_ledger_entry,
}
use digital_store.Delivery.Repository.Claim.{
  Job, is_candidate, next_candidate, mark_processing, claim_attempt, claim_if_found, claim_next_job,
  is_due,
}
use digital_store.Delivery.Repository.Report.{
  delivered_attempt, delivered_order, update_processing, mark_order_delivered,
  insert_delivery_entry, deliver, deliver_if_found, mark_delivered, failed_attempt, failed_order,
  mark_order_failed, mark_recoverable_failure, mark_out_of_stock, mark_failed,
}
use digital_store.Delivery.Service.{Outcome, complete, all_out_of_stock, fail, Service, report}
use digital_store.Coherence.Invariant.{Memory, Coherent}
use digital_store.Coherence.Keeps.{OnOk, OnOk-ok}
use digital_store.Coherence.Jobs.{next_candidate-Memᴰ, is_held}
use digital_store.Coherence.Reports.{remembered-attempt}
use digital_store.Delivery.Worker.Waiting.{
  none_locked, waiting, claimed-fewer, reported_db, reported-no_more,
}

-- A claim that finds a job leaves fewer deliveries that are due.
abbrev pub fewer : ℕ → Db → Option Job → Db → Bool
fewer now db r db' = not (is_some r) || ltb (waiting now db') (waiting now db)

pub claim_next_job-fewer :
    (env : Env) (db : Db)
    → OnOk (λ r db'. fewer env.now db r db' ≡ true) (claim_next_job none_locked env db)
unfolding claim_next_job claim_if_found claim_attempt mark_processing
claim_next_job-fewer env db = go (next_candidate none_locked env.now db) refl
  where
    go :
        (r : Option DeliveryAttempt)
        → next_candidate none_locked env.now db ≡ r
        → OnOk (λ r db'. fewer env.now db r db' ≡ true) (claim_if_found env r db)
    go none e = OnOk-ok refl
    go (some d) e =
        let (m, k) = next_candidate-Memᴰ none_locked env.now db d e in
        ground (arith, claimed-fewer env.now env d db m k)

waiting-insert_delivery_entry :
    (now : ℕ) (env : Env) (o : ℕ) (db : Db)
    → waiting now (insert_delivery_entry env o db) ≡ waiting now db
unfolding insert_delivery_entry add_ledger_entry waiting is_candidate order_of
waiting-insert_delivery_entry now env o db = ground arith

module _ (now : ℕ) (env : Env) {known : ℕ → Memory} {db : Db} (c : Coherent known db) (job : Job)
    (remembered : (known job.order_id).attempt ≡ some job.delivery_id)
    (held : is_held db (some job) ≡ true) where
  -- No more deliveries are due.
  abbrev pub no_more : Db → Bool
  no_more db' = leb (waiting now db') (waiting now db)

  recoverable_failure-no_more :
      (ds : DeliveryStatus) (os : OrderStatus) (message : String) (delay : ℕ)
      → now < env.now + delay
      → OnOk (λ u db'. no_more db' ≡ true) (mark_recoverable_failure env job ds os message delay db)
  unfolding mark_recoverable_failure update_processing mark_order_failed
  recoverable_failure-no_more ds os message delay later =
      let (d, own, same) = remembered-attempt c job.order_id job.delivery_id remembered in
      let fact =
        reported-no_more now c job.order_id job.delivery_id d own (ground (arith, held, own)) same
          (failed_attempt env ds message delay) (failed_order env os message)
          (λ x. unfold failed_order in refl)
          (λ x. unfold failed_attempt is_due in ground (arith, later)) in
      ground (arith, fact)

  mark_delivered-no_more :
      (provider code : String)
      → OnOk (λ u db'. no_more db' ≡ true) (mark_delivered env job provider code db)
  unfolding mark_delivered deliver_if_found deliver update_processing mark_order_delivered
  mark_delivered-no_more provider code =
      let (d, own, same) = remembered-attempt c job.order_id job.delivery_id remembered in
      let f = delivered_attempt env provider code in
      let g = delivered_order env in
      let p : is_processing d.status ≡ true = ground (arith, held, own) in
      let fact =
        reported-no_more now c job.order_id job.delivery_id d own p same f g
          (λ x. unfold delivered_order in refl) (λ x. unfold delivered_attempt in ground arith) in
      ground (
        arith,
        fact,
        waiting-insert_delivery_entry now env job.order_id (
            reported_db now c job.order_id job.delivery_id d own p same f g
              (λ x. unfold delivered_order in refl)
              (λ x. unfold delivered_attempt in ground arith)),
      )

  pub report-no_more :
      (s : Service) (outcome : Outcome)
      → now < env.now + s.retry_delay
      → OnOk (λ u db'. no_more db' ≡ true) (report env s job outcome db)
  unfolding report mark_out_of_stock mark_failed
  report-no_more s (complete provider code) later = mark_delivered-no_more provider code
  report-no_more s (all_out_of_stock message) later =
      recoverable_failure-no_more _ _ message s.retry_delay later
  report-no_more s (fail message) later =
      recoverable_failure-no_more _ _ message s.retry_delay later

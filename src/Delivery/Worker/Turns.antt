-- ===== src/Delivery/Worker/Turns.antt =====
-- A turn of the worker that finds a job brings it to an end.
use mathlib.Core.Option
use digital_store.Prelude.{
  ◌+◌, ℕ, true, false, not, ◌&&◌, any_where, none, some, ◌≡◌, ap, arith, subst, sym,
}
use digital_store.Model.{Db, DeliveryAttempt, OrderStatus, Platform, ok, attempt_of}
use digital_store.Model.View.{View, view}
use digital_store.Delivery.Repository.Claim.{Job, is_candidate, claimed_before}
use digital_store.Delivery.Service.{
  Outcome, complete, all_out_of_stock, fail, report, decide, process,
}
use digital_store.Delivery.Worker.{Turn, Processing, claim, work, proceed, process_next}
use digital_store.Coherence.Invariant.{Memory, Coherent, order_status, delivered_code}
use digital_store.Coherence.Keeps.{of_OnOk}
use digital_store.Coherence.Jobs.{is_held, claim_next_job-Coherent, claim_next_job-held}
use digital_store.Coherence.Queue.{claim_next_job-first}
use digital_store.Coherence.Commits.{mark_delivered-held, mark_out_of_stock-held, mark_failed-held}

-- What an outcome makes of its order: it is delivered with the code and has one delivery in the
-- ledger, or it has failed and is due again after the delay.
abbrev pub Settled : ℕ → Outcome → View → Type 0
Settled due (complete provider code) v =
    (order_status v ≡ some OrderStatus.delivered)
    × (delivered_code v ≡ some code)
    × (v.deliveries ≡ 1)
Settled due (all_out_of_stock message) v =
    (order_status v ≡ some OrderStatus.out_of_stock)
    × (Option.map (λ d. d.next_attempt_at) v.attempt ≡ some (some due))
Settled due (fail message) v =
    (order_status v ≡ some OrderStatus.delivery_failed)
    × (Option.map (λ d. d.next_attempt_at) v.attempt ≡ some (some due))

-- What other transactions do while the providers are asked keeps the database coherent and leaves a
-- job that is held to its worker.
pub record IsPatient (f : Db → Db) : Type 0 where
  pub keeps : (known : ℕ → Memory) (db : Db) → Coherent known db → Coherent known (f db)
  pub holds :
      (job : Job) (db : Db) → is_held db (some job) ≡ true → is_held (f db) (some job) ≡ true

module _ (plat : Platform) (turn : Turn) where
  abbrev pub outcome_of : Job → Outcome
  outcome_of job = (decide plat turn.service job turn.a_cancelled turn.b_cancelled).outcome

  abbrev pub due_at : ℕ
  due_at = turn.report_env.now + turn.service.retry_delay

  pub report-Settled :
      {known : ℕ → Memory} (job : Job) (db : Db)
      → Coherent known db
      → (known job.order_id).attempt ≡ some job.delivery_id
      → is_held db (some job) ≡ true
      → (o : Outcome)
      → (db' : Db) × (report turn.report_env turn.service job o db ≡ ok (tt, db'))
        × Settled due_at o (view job.order_id db')
  unfolding report
  report-Settled job db c m h (complete provider code) =
      let (db', run, status, kept, once) =
        mark_delivered-held turn.report_env c job m h provider code in
      (db', run, (status, kept, once))
  report-Settled job db c m h (all_out_of_stock message) =
      let (db', run, status, same, due) =
        mark_out_of_stock-held turn.report_env c job m h message turn.service.retry_delay in
      (db', run, (status, due))
  report-Settled job db c m h (fail message) =
      let (db', run, status, same, due) =
        mark_failed-held turn.report_env c job m h message turn.service.retry_delay in
      (db', run, (status, due))

  -- Where a delivery is due, a turn of the worker claims the first due one and reports it: it commits
  -- without an error, and leaves the order delivered with the code, or failed and due again after
  -- the delay, as the outcome says. The database is coherent, the context is not done, the
  -- connection is not lost and the others leave the job to its worker.
  pub process_next-Settled :
      {known : ℕ → Memory} (db : Db)
      → Coherent known (turn.before db)
      → any_where
          (is_candidate turn.locked turn.claim_env.now (turn.before db))
          (turn.before db).delivery_attempts
        ≡ true
      → turn.lost ≡ none
      → turn.done ≡ false
      → IsPatient turn.meanwhile
      → (job : Job) × (d : DeliveryAttempt) × (attempt_of job.order_id (turn.before db) ≡ some d)
        × (is_candidate turn.locked turn.claim_env.now (turn.before db) d ≡ true)
        × (any_where
              (λ x.
                is_candidate turn.locked turn.claim_env.now (turn.before db) x
                && not (claimed_before d x))
              (turn.before db).delivery_attempts
            ≡ false)
        × ((process_next plat turn db).processed ≡ true)
        × ((process_next plat turn db).error ≡ none)
        × Settled due_at (outcome_of job) (view job.order_id (process_next plat turn db).db)
  unfolding process_next proceed work claim process
  process_next-Settled {known} db c due alive open_ patient =
      let start = turn.before db in
      let (job, db1, d, run, own, same, can, first) =
        claim_next_job-first turn.locked turn.claim_env start c due in
      let c1 = of_OnOk (claim_next_job-Coherent turn.locked turn.claim_env known start c) run in
      let h1 = of_OnOk (claim_next_job-held turn.locked turn.claim_env start c) run in
      let (db2, done, settled) =
        report-Settled job (turn.meanwhile db1) (patient.keeps _ db1 c1) (ground arith)
          (patient.holds job db1 h1) (outcome_of job) in
      let whole : process_next plat turn db ≡ record { processed = true; error = none; db = db2 } =
        ground (arith, alive, open_, run, done) in
      (
        job,
        d,
        own,
        can,
        first,
        ap (λ p. p.processed) whole,
        ap (λ p. p.error) whole,
        subst (λ (p : Processing). Settled due_at (outcome_of job) (view job.order_id p.db))
            (sym whole) settled,
      )

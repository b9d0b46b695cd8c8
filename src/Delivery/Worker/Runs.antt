-- ===== src/Delivery/Worker/Runs.antt =====
-- The worker changes the database by transactions of the store only.
use mathlib.Core.List.{Memᴰ}
use digital_store.Prelude.{
  Bool, true, false, if◌then◌else◌, option_any, Option, none, some, List, [], ◌∷◌, refl,
}
use digital_store.Model.{Db, Error, Platform, Result, ok, err, after, raise, context_canceled}
use digital_store.Delivery.Repository.Claim.{Job, claim_next_job, recover_stale_jobs}
use digital_store.Delivery.Repository.Report.{mark_delivered, mark_out_of_stock, mark_failed}
use digital_store.Delivery.Service.{
  Outcome, complete, all_out_of_stock, fail, report, decide, process,
}
use digital_store.Delivery.Worker.{
  Turn, Processing, claim, work, proceed, process_next, Wake, Round, Ran, is_canceled, stale_after,
  wait, round, run,
}
use digital_store.System.{State, Step, Run, claimed}
use digital_store.System.Runs.{Run-trans, Step-Run, IsRun}

-- The other transactions of the turn are those of the store.
pub record IsShared (plat : Platform) (turn : Turn) : Type 0 where
  pub before : IsRun plat turn.before
  pub meanwhile : IsRun plat turn.meanwhile

abbrev pub AllShared : Platform → List Round → Type 0
AllShared plat [] = Unit {0}
AllShared plat (r ∷ rs) = IsShared plat r.turn × AllShared plat rs

-- The database is one that the store reaches, with some jobs in flight.
abbrev pub Reaches : Platform → State → Db → Type 0
Reaches plat s db = (jobs : List Job) × Run plat s (record { db = db; jobs = jobs })

module _ (plat : Platform) where
  report-Run :
      (turn : Turn) (job : Job) (s : State)
      → Memᴰ job s.jobs
      → (o : Outcome)
      → Run plat s (record s { db = after (report turn.report_env turn.service job o) s.db })
  unfolding report
  report-Run turn job s m (complete provider code) =
      Step-Run (mark_delivered turn.report_env job provider code)
        (Step.job_delivered turn.report_env job provider code m)
  report-Run turn job s m (all_out_of_stock message) =
      Step-Run (mark_out_of_stock turn.report_env job message turn.service.retry_delay)
        (Step.job_out_of_stock turn.report_env job message turn.service.retry_delay m)
  report-Run turn job s m (fail message) =
      Step-Run (mark_failed turn.report_env job message turn.service.retry_delay)
        (Step.job_failed turn.report_env job message turn.service.retry_delay m)

  work-Run :
      (turn : Turn) (job : Job) (s : State)
      → Memᴰ job s.jobs
      → Run plat s (record s { db = (work plat turn job s.db).db })
  unfolding work process
  work-Run turn job s m = go turn.done
    where
      go :
          (done : Bool)
          → Run plat s (record s {
            db =
                after
                  (if done
                    then raise context_canceled
                    else report turn.report_env turn.service job
                        (decide plat turn.service job turn.a_cancelled turn.b_cancelled).outcome)
                  s.db;
          })
      go true = Run.idle
      go false =
          report-Run turn job s m
            (decide plat turn.service job turn.a_cancelled turn.b_cancelled).outcome

  proceed-Run :
      (turn : Turn) (s : State) (r : Result (Option Job × Db))
      → IsShared plat turn
      → Run plat s (claimed s r)
      → Reaches plat s (proceed plat turn s.db r).db
  unfolding proceed
  proceed-Run turn s (err e) shared h = (s.jobs, Run.idle)
  proceed-Run turn s (ok (none, db)) shared h = (s.jobs, h)
  proceed-Run turn s (ok (some job, db)) shared h =
      let held : State = record { db = turn.meanwhile db; jobs = job ∷ s.jobs } in
      (
        job ∷ s.jobs,
        Run-trans (Run-trans h (shared.meanwhile.runs (claimed s (ok (some job, db)))))
            (work-Run turn job held (Memᴰ.head refl)),
      )

  process_next-Run :
      (turn : Turn) (s : State)
      → IsShared plat turn
      → Reaches plat s (process_next plat turn s.db).db
  unfolding process_next claim
  process_next-Run turn s shared =
      let start : State = record s { db = turn.before s.db } in
      let (jobs, h) = go start turn.lost in (jobs, Run-trans (shared.before.runs s) h)
    where
      go :
          (start : State) (lost : Option Error)
          → Reaches plat start
              (proceed plat turn start.db (
                (elim lost [
                  | none ↦ claim_next_job turn.locked turn.claim_env start.db
                  | some e ↦ err e
                ]))).db
      go start none =
          proceed-Run turn start _ shared
            (Run.then Run.idle (Step.job_claimed turn.locked turn.claim_env))
      go start (some e) = proceed-Run turn start (err e) shared Run.idle

  wait-Run :
      (wake : Wake) (rest : Db → Ran) (s : State)
      → ((s : State) → Reaches plat s (rest s.db).db)
      → Reaches plat s (wait wake rest s.db).db
  unfolding wait
  wait-Run Wake.stopped rest s h = (s.jobs, Run.idle)
  wait-Run Wake.timer rest s h = h s
  wait-Run (Wake.recovery env) rest s h =
      let woken : State = record s { db = after (recover_stale_jobs env stale_after) s.db } in
      let (jobs, q) = h woken in
      (
        jobs,
        Run-trans
            (Step-Run (recover_stale_jobs env stale_after) (Step.jobs_recovered env stale_after)) q,
      )

  if-Reaches :
      (s : State) (b : Bool) (x y : Ran)
      → Reaches plat s x.db
      → Reaches plat s y.db
      → Reaches plat s (if b then x else y).db
  if-Reaches s true x y hx hy = hx
  if-Reaches s false x y hx hy = hy

  round-Run :
      (wake : Wake) (p : Processing) (rest : Db → Ran) (jobs : List Job)
      → ((s : State) → Reaches plat s (rest s.db).db)
      → Reaches plat (record { db = p.db; jobs = jobs }) (round wake p rest).db
  unfolding round
  round-Run wake p rest jobs h =
      let left : State = record { db = p.db; jobs = jobs } in
      if-Reaches left (option_any is_canceled p.error) _ _ (jobs, Run.idle)
        (if-Reaches left p.processed _ _ (h left) (wait-Run wake rest left h))

  -- Whatever the worker does in any number of rounds, and whatever its providers answer, it takes
  -- the store from a state to one that the store reaches: each claim, report and recovery is a
  -- transaction of the store, and a report is of a job that was claimed. What others do in between
  -- are transactions of the store too.
  pub run-Run :
      (rounds : List Round) (s : State)
      → AllShared plat rounds
      → Reaches plat s (run plat rounds s.db).db
  unfolding run
  run-Run [] s shared = (s.jobs, Run.idle)
  run-Run (r ∷ rs) s (shared, others) =
      let (jobs, h) = process_next-Run r.turn s shared in
      let (jobs', q) =
        round-Run r.wake (process_next plat r.turn s.db) (run plat rs) jobs
          (λ s'. run-Run rs s' others) in
      (jobs', Run-trans h q)

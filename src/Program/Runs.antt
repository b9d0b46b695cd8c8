-- ===== src/Program/Runs.antt =====
-- A process changes the store by its transactions only, and by none but those of the HTTP handlers once its
-- context is done.
use mathlib.Core.List.{Memᴰ}
use digital_store.Prelude.{
  ℕ, Bool, true, false, Option, none, some, List, [], ◌∷◌, refl, if◌then◌else◌,
}
use digital_store.Model.{Db, Env, Platform, Error, Result, ok, err, Tx}
use digital_store.Delivery.Repository.Claim.{Job, claim_next_job, recover_stale_jobs}
use digital_store.Delivery.Service.{
  Service, Outcome, complete, all_out_of_stock, fail, report, decide, process,
}
use digital_store.Delivery.Worker.{Wake, is_canceled, stale_after}
use digital_store.Reconciliation.Repair.{repair as repair_of, RepairResult}
use digital_store.Http.Runs.{serve-Run}
use digital_store.System.{State, committed, claimed, Step, Run}
use digital_store.System.Runs.{Run-trans}
use digital_store.Program.{
  Program, WorkerPhase, claiming, waiting, returned, holding, RepairPhase, absent, repairing, ended,
  Process, Act, request, claim, deliver, wake, repair, repairs_stop, interrupt, server_end, select,
  shut_down, call, after_claim, after_report, after_repair, claim_from, deliver_from, wake_from,
  repair_from, stop_repairs, select_main, serve_in, step_of, is_refused, act_in, run_acts, start,
  processes,
}

-- The job that the worker is delivering is one that it claimed.
abbrev pub Held : WorkerPhase → List Job → Type 0
Held (holding job) jobs = Memᴰ job jobs
Held _ jobs = Unit {0}

-- From one process to a later one.
pub record Leads (plat : Platform) (p p' : Process) : Type 0 where
  pub run : Run plat p.store p'.store
  pub held : Held p'.worker p'.store.jobs

module _ (plat : Platform) where
  -- A call that fails before its transaction leaves the store.
  call-Run :
      {A : Type 0} (s : State) (done : Bool) (lost : Option Error) (m : Tx A)
      → Run plat s (committed s (m s.db))
      → Run plat s (committed s (call done lost m s.db))
  unfolding call
  call-Run s true lost m h = Run.idle
  call-Run s false (some e) m h = Run.idle
  call-Run s false none m h = h

  after_claim-Leads :
      (p : Process) (r : Result (Option Job × Db))
      → Run plat p.store (claimed p.store r)
      → Leads plat p (after_claim p r)
  after_claim-Leads p (err e) h = record { run = Run.idle; held = idle (is_canceled e) }
    where
      idle : (b : Bool) → Held (if b then returned else waiting) p.store.jobs
      idle true = tt
      idle false = tt
  after_claim-Leads p (ok (none, db)) h = record { run = h; held = tt }
  after_claim-Leads p (ok (some job, db)) h = record { run = h; held = Memᴰ.head refl }

  claim_from-Leads :
      (w : WorkerPhase) (locked : ℕ → Bool) (env : Env) (lost : Option Error) (p : Process)
      → Held p.worker p.store.jobs
      → Leads plat p (claim_from w locked env lost p)
  unfolding claim_from call
  claim_from-Leads claiming locked env lost p h = go p.done lost
    where
      go :
          (done : Bool) (lost : Option Error)
          → Leads plat p (after_claim p (call done lost (claim_next_job locked env) p.store.db))
      go true lost = record { run = Run.idle; held = tt }
      go false (some e) = after_claim-Leads p (err e) Run.idle
      go false none =
          after_claim-Leads p (claim_next_job locked env p.store.db)
            (Run.then Run.idle (Step.job_claimed locked env))
  claim_from-Leads waiting locked env lost p h = record { run = Run.idle; held = h }
  claim_from-Leads returned locked env lost p h = record { run = Run.idle; held = h }
  claim_from-Leads (holding job) locked env lost p h = record { run = Run.idle; held = h }

  after_report-Leads :
      (p : Process) (r : Result (Unit {0} × Db))
      → Run plat p.store (committed p.store r)
      → Leads plat p (after_report p r)
  after_report-Leads p (ok r) h = record { run = h; held = tt }
  after_report-Leads p (err e) h = record { run = Run.idle; held = idle (is_canceled e) }
    where
      idle : (b : Bool) → Held (if b then returned else claiming) p.store.jobs
      idle true = tt
      idle false = tt

  report-Run :
      (s : State) (service : Service) (env : Env) (job : Job) (o : Outcome)
      → Memᴰ job s.jobs
      → Run plat s (committed s (report env service job o s.db))
  unfolding report
  report-Run s service env job (complete provider code) m =
      Run.then Run.idle (Step.job_delivered env job provider code m)
  report-Run s service env job (all_out_of_stock message) m =
      Run.then Run.idle (Step.job_out_of_stock env job message service.retry_delay m)
  report-Run s service env job (fail message) m =
      Run.then Run.idle (Step.job_failed env job message service.retry_delay m)

  process-Run :
      (s : State) (service : Service) (env : Env) (job : Job) (cancelled : ℕ → Bool) (done : Bool)
      → Memᴰ job s.jobs
      → Run plat s (committed s (process plat env service job cancelled cancelled done s.db))
  unfolding process
  process-Run s service env job cancelled true m = Run.idle
  process-Run s service env job cancelled false m =
      report-Run s service env job (decide plat service job cancelled cancelled).outcome m

  deliver_from-Leads :
      (w : WorkerPhase) (service : Service) (env : Env) (lost : Option Error) (p : Process)
      → Held w p.store.jobs
      → Held p.worker p.store.jobs
      → Leads plat p (deliver_from w plat service env lost p)
  unfolding deliver_from
  deliver_from-Leads (holding job) service env lost p m h =
      after_report-Leads p _ (
        call-Run p.store p.done lost _ (process-Run p.store service env job (λ n. p.done) p.done m))
  deliver_from-Leads claiming service env lost p m h = record { run = Run.idle; held = h }
  deliver_from-Leads waiting service env lost p m h = record { run = Run.idle; held = h }
  deliver_from-Leads returned service env lost p m h = record { run = Run.idle; held = h }

  if-Leads :
      (b : Bool) (p q r : Process)
      → Leads plat p q
      → Leads plat p r
      → Leads plat p (if b then q else r)
  if-Leads true p q r hq hr = hq
  if-Leads false p q r hq hr = hr

  -- Nothing has happened.
  stays : (p : Process) → Held p.worker p.store.jobs → Leads plat p p
  stays p h = record { run = Run.idle; held = h }

  wake_from-Leads :
      (w : WorkerPhase) (event : Wake) (p : Process)
      → Held p.worker p.store.jobs
      → Leads plat p (wake_from w event p)
  unfolding wake_from
  wake_from-Leads waiting Wake.stopped p h =
      if-Leads p.done p _ p (record { run = Run.idle; held = tt }) (stays p h)
  wake_from-Leads waiting Wake.timer p h = record { run = Run.idle; held = tt }
  wake_from-Leads waiting (Wake.recovery env) p h = record {
    run =
        call-Run p.store p.done none (recover_stale_jobs env stale_after)
          (Run.then Run.idle (Step.jobs_recovered env stale_after));
    held = tt;
  }
  wake_from-Leads claiming event p h = stays p h
  wake_from-Leads returned event p h = stays p h
  wake_from-Leads (holding job) event p h = stays p h

  after_repair-Leads :
      (p : Process) (r : Result (RepairResult × Db))
      → Run plat p.store (committed p.store r)
      → Held p.worker p.store.jobs
      → Leads plat p (after_repair p r)
  after_repair-Leads p (ok r) run h = record { run = run; held = h }
  after_repair-Leads p (err e) run h = record { run = run; held = h }

  repair_from-Leads :
      (r : RepairPhase) (env : Env) (lost : Option Error) (p : Process)
      → Held p.worker p.store.jobs
      → Leads plat p (repair_from r plat env lost p)
  unfolding repair_from
  repair_from-Leads repairing env lost p h =
      after_repair-Leads p _
        (call-Run p.store p.done lost (repair_of plat env)
          (Run.then Run.idle (Step.orders_repaired env)))
        h
  repair_from-Leads absent env lost p h = stays p h
  repair_from-Leads ended env lost p h = stays p h

  stop_repairs-Leads :
      (r : RepairPhase) (p : Process) → Held p.worker p.store.jobs → Leads plat p (stop_repairs r p)
  unfolding stop_repairs
  stop_repairs-Leads repairing p h =
      if-Leads p.done p _ p (record { run = Run.idle; held = h }) (stays p h)
  stop_repairs-Leads absent p h = stays p h
  stop_repairs-Leads ended p h = stays p h

  module _ (program : Program) where
    step_of-Leads :
        (a : Act) (p : Process)
        → Held p.worker p.store.jobs
        → Leads plat p (step_of program plat a p)
    unfolding step_of serve_in select_main
    step_of-Leads (request at r) p h = record {
      run = serve-Run plat at p.store program.server r;
      held = h;
    }
    step_of-Leads (claim locked env lost) p h = claim_from-Leads p.worker locked env lost p h
    step_of-Leads (deliver network env lost) p h =
        deliver_from-Leads p.worker (program.service network) env lost p h h
    step_of-Leads (wake w) p h = wake_from-Leads p.worker w p h
    step_of-Leads (repair env lost) p h = repair_from-Leads p.repairs env lost p h
    step_of-Leads repairs_stop p h = stop_repairs-Leads p.repairs p h
    step_of-Leads interrupt p h = record { run = Run.idle; held = h }
    step_of-Leads server_end p h = record { run = Run.idle; held = h }
    step_of-Leads select p h = if-Leads _ p _ p (record { run = Run.idle; held = h }) (stays p h)
    step_of-Leads shut_down p h = record { run = Run.idle; held = h }

    pub act_in-Leads :
        (a : Act) (p : Process)
        → Held p.worker p.store.jobs
        → Leads plat p (act_in program plat a p)
    unfolding act_in
    act_in-Leads a p h = if-Leads (is_refused p.main a) p _ _ (stays p h) (step_of-Leads a p h)

    pub run_acts-Leads :
        (acts : List Act) (p : Process)
        → Held p.worker p.store.jobs
        → Leads plat p (run_acts program plat acts p)
    unfolding run_acts
    run_acts-Leads [] p h = stays p h
    run_acts-Leads (a ∷ acts) p h =
        let first = act_in-Leads a p h in
        let rest = run_acts-Leads acts _ first.held in
        record { run = Run-trans first.run rest.run; held = rest.held }

    -- Whatever a program does, requests, deliveries and repairs in any order, however often it is
    -- stopped or killed and started again, and whatever the providers answer, the store goes from
    -- any state to one that it reaches by its transactions.
    pub processes-Run :
        (lives : List (List Act)) (s : State) → Run plat s (processes program plat lives s)
    unfolding processes start
    processes-Run [] s = Run.idle
    processes-Run (acts ∷ lives) s =
        let first = run_acts-Leads acts (start program s) tt in
        Run-trans first.run (processes-Run lives _)

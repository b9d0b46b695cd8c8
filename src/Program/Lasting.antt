-- ===== src/Program/Lasting.antt =====
-- What ends a process, and what does not.
use digital_store.Prelude.{
  ℕ, Bool, true, false, ◌||◌, any_where, Option, none, some, List, [], ◌∷◌, ◌≡◌, refl, ◌∙◌, sym,
  subst, ap, if◌then◌else◌, arith,
}
use digital_store.Model.{Db, Env, Platform, Error, Result, ok, err, Tx, Product}
use digital_store.Delivery.Repository.Claim.{Job, claim_next_job}
use digital_store.Delivery.Service.{Service, process, decide}
use digital_store.Delivery.Worker.{Wake, is_canceled}
use digital_store.Reconciliation.Repair.{repair as repair_of}
use digital_store.Coherence.Invariant.{Memory}
use digital_store.Coherence.Repairs.{repair-Coherent}
use digital_store.System.{State, Run, opened}
use digital_store.System.Sound.{Sound, Run-Sound, opened-Sound}
use digital_store.Program.{
  Program, WorkerPhase, claiming, waiting, returned, holding, RepairPhase, absent, repairing, ended,
  MainPhase, Process, Act, request, claim, deliver, wake, repair, repairs_stop, interrupt,
  server_end, select, shut_down, call, is_returned, is_ended, is_selecting, claimed_phase,
  reported_phase, repaired_phase, claim_from, deliver_from, wake_from, repair_from, stop_repairs,
  select_main, serve_in, step_of, is_refused, act_in, run_acts, start,
}
use digital_store.Program.Errors.{canceled, claim_next_job-canceled, report-canceled}
use digital_store.Program.Runs.{Held, act_in-Leads}

-- A connection error that a repository wraps is not that of a context.
abbrev pub is_canceled_loss : Option Error → Bool
is_canceled_loss none = false
is_canceled_loss (some e) = is_canceled e

-- An act that ends a process: a signal, the end of the HTTP server, or an error of the connection
-- in a repair; or an error in the worker that says that its context is done.
abbrev pub is_ending : Act → Bool
is_ending interrupt = true
is_ending server_end = true
is_ending (repair env (some e)) = true
is_ending (claim locked env lost) = is_canceled_loss lost
is_ending (deliver network env lost) = is_canceled_loss lost
is_ending _ = false

-- Every goroutine runs, and `main` is in its `select`.
pub record Lasting (p : Process) : Type 0 where
  pub live : p.done ≡ false
  pub serving : p.server_ended ≡ false
  pub working : is_returned p.worker ≡ false
  pub mending : is_ended p.repairs ≡ false
  pub selecting : is_selecting p.main ≡ true

claimed_phase-working :
    (r : Result (Option Job × Db)) → canceled r ≡ false → is_returned (claimed_phase r) ≡ false
claimed_phase-working (ok (none, db)) h = refl
claimed_phase-working (ok (some job, db)) h = refl
claimed_phase-working (err e) h = ground (arith, h)

reported_phase-working :
    (r : Result (Unit {0} × Db)) → canceled r ≡ false → is_returned (reported_phase r) ≡ false
reported_phase-working (ok r) h = refl
reported_phase-working (err e) h = ground (arith, h)

module _ {p : Process} (l : Lasting p) where
  live_call-canceled :
      {A : Type 0} (lost : Option Error) (m : Tx A)
      → is_canceled_loss lost ≡ false
      → canceled (m p.store.db) ≡ false
      → canceled (call p.done lost m p.store.db) ≡ false
  unfolding call
  live_call-canceled none m h k = rw l.live k
  live_call-canceled (some e) m h k = rw l.live h

  claim_from-Lasting :
      (w : WorkerPhase) (locked : ℕ → Bool) (env : Env) (lost : Option Error)
      → is_canceled_loss lost ≡ false
      → Lasting (claim_from w locked env lost p)
  unfolding claim_from
  claim_from-Lasting claiming locked env lost h = record {
    live = l.live;
    serving = l.serving;
    working = claimed_phase-working _ (
        live_call-canceled lost (claim_next_job locked env) h
          (claim_next_job-canceled locked env p.store.db));
    mending = l.mending;
    selecting = l.selecting;
  }
  claim_from-Lasting waiting locked env lost h = l
  claim_from-Lasting returned locked env lost h = l
  claim_from-Lasting (holding job) locked env lost h = l

  deliver_from-Lasting :
      (w : WorkerPhase) (plat : Platform) (service : Service) (env : Env) (lost : Option Error)
      → is_canceled_loss lost ≡ false
      → Lasting (deliver_from w plat service env lost p)
  unfolding deliver_from process
  deliver_from-Lasting (holding job) plat service env lost h = record {
    live = l.live;
    serving = l.serving;
    working = reported_phase-working _ (
        live_call-canceled lost _ h (
          rw l.live (
            report-canceled env service job
              (decide plat service job (λ n. false) (λ n. false)).outcome p.store.db)));
    mending = l.mending;
    selecting = l.selecting;
  }
  deliver_from-Lasting claiming plat service env lost h = l
  deliver_from-Lasting waiting plat service env lost h = l
  deliver_from-Lasting returned plat service env lost h = l

  if-Lasting : (b : Bool) (q : Process) → b ≡ false → Lasting (if b then q else p)
  if-Lasting b q h = subst (λ b. Lasting (if b then q else p)) (sym h) l

  wake_from-Lasting : (w : WorkerPhase) (event : Wake) → Lasting (wake_from w event p)
  unfolding wake_from
  wake_from-Lasting waiting Wake.stopped = if-Lasting p.done _ l.live
  wake_from-Lasting waiting Wake.timer = record {
    live = l.live;
    serving = l.serving;
    working = refl;
    mending = l.mending;
    selecting = l.selecting;
  }
  wake_from-Lasting waiting (Wake.recovery env) = record {
    live = l.live;
    serving = l.serving;
    working = refl;
    mending = l.mending;
    selecting = l.selecting;
  }
  wake_from-Lasting claiming event = l
  wake_from-Lasting returned event = l
  wake_from-Lasting (holding job) event = l

  repair_from-Lasting :
      {known : ℕ → Memory} (r : RepairPhase) (plat : Platform) (env : Env)
      → Sound known p.store
      → Lasting (repair_from r plat env none p)
  unfolding repair_from call
  repair_from-Lasting repairing plat env sound = record {
    live = l.live;
    serving = l.serving;
    working = l.working;
    mending =
        ap (λ b. is_ended (repaired_phase (call b none (repair_of plat env) p.store.db))) l.live
        ∙ ap (λ r. is_ended (repaired_phase r)) (repair-Coherent sound.coherent plat env);
    selecting = l.selecting;
  }
  repair_from-Lasting absent plat env sound = l
  repair_from-Lasting ended plat env sound = l

  stop_repairs-Lasting : (r : RepairPhase) → Lasting (stop_repairs r p)
  unfolding stop_repairs
  stop_repairs-Lasting repairing = if-Lasting p.done _ l.live
  stop_repairs-Lasting absent = l
  stop_repairs-Lasting ended = l

  select_main-Lasting : Lasting (select_main p)
  unfolding select_main
  select_main-Lasting =
      if-Lasting (p.done || p.server_ended || is_returned p.worker || is_ended p.repairs) _
        (ground (arith, l.live, l.serving, l.working, l.mending))

  module _ (program : Program) (plat : Platform) where
    step_of-Lasting :
        {known : ℕ → Memory} (a : Act)
        → is_ending a ≡ false
        → is_refused p.main a ≡ false
        → Sound known p.store
        → Lasting (step_of program plat a p)
    unfolding step_of serve_in
    step_of-Lasting (request at r) h k sound = record {
      live = l.live;
      serving = l.serving;
      working = l.working;
      mending = l.mending;
      selecting = l.selecting;
    }
    step_of-Lasting (claim locked env lost) h k sound =
        claim_from-Lasting p.worker locked env lost h
    step_of-Lasting (deliver network env lost) h k sound =
        deliver_from-Lasting p.worker plat (program.service network) env lost h
    step_of-Lasting (wake w) h k sound = wake_from-Lasting p.worker w
    step_of-Lasting (repair env none) h k sound = repair_from-Lasting p.repairs plat env sound
    step_of-Lasting (repair env (some e)) h k sound = ground (arith, h)
    step_of-Lasting repairs_stop h k sound = stop_repairs-Lasting p.repairs
    step_of-Lasting interrupt h k sound = ground (arith, h)
    step_of-Lasting server_end h k sound = ground (arith, h)
    step_of-Lasting select h k sound = select_main-Lasting
    step_of-Lasting shut_down h k sound = refused p.main l.selecting k
      where
        refused :
            (m : MainPhase)
            → is_selecting m ≡ true
            → is_refused m shut_down ≡ false
            → Lasting (record p { main = MainPhase.exited })
        refused MainPhase.selecting h k = ground (arith, k)
        refused MainPhase.stopping h k = ground (arith, h)
        refused MainPhase.exited h k = ground (arith, h)

    act_in-Lasting :
        {known : ℕ → Memory} (a : Act)
        → is_ending a ≡ false
        → Sound known p.store
        → Lasting (act_in program plat a p)
    unfolding act_in
    act_in-Lasting a h sound = go (is_refused p.main a) refl
      where
        go :
            (b : Bool)
            → is_refused p.main a ≡ b
            → Lasting (if b then p else step_of program plat a p)
        go true e = l
        go false e = step_of-Lasting a h e sound

module _ (program : Program) (plat : Platform) where
  run_acts-Lasting :
      (acts : List Act) {known : ℕ → Memory} (p : Process)
      → any_where is_ending acts ≡ false
      → Sound known p.store
      → Held p.worker p.store.jobs
      → Lasting p
      → Lasting (run_acts program plat acts p)
  unfolding run_acts any_where
  run_acts-Lasting [] p h sound held l = l
  run_acts-Lasting (a ∷ acts) p h sound held l =
      let leads = act_in-Leads plat program a p held in
      let (known', sound', goes) = Run-Sound sound leads.run in
      run_acts-Lasting acts _ (ground (arith, h)) sound' leads.held
        (act_in-Lasting l program plat a (ground (arith, h)) sound)

  -- Nothing ends a program but a signal, the end of its HTTP server, an error of the connection in a
  -- repair, and an error in the worker that says that its context is done: no request, no lost
  -- connection of a claim or a report, no answer of a provider and no failed transaction does, in
  -- whatever order they come. The program starts on a state that the store reaches.
  pub run_acts-lasts :
      {products : List Product} {s : State} (acts : List Act)
      → Run plat (opened products) s
      → any_where is_ending acts ≡ false
      → Lasting (run_acts program plat acts (start program s))
  unfolding start
  run_acts-lasts {products} {s} acts run h =
      let (known, sound, goes) = Run-Sound (opened-Sound products) run in
      run_acts-Lasting acts (start program s) h sound tt (record {
        live = refl;
        serving = refl;
        working = refl;
        mending = starts program.repairs;
        selecting = refl;
      })
    where
      starts :
          (b : Bool) → is_ended (if b then RepairPhase.repairing else RepairPhase.absent) ≡ false
      starts true = refl
      starts false = refl

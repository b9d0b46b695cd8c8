-- ===== src/Program/Stopping.antt =====
-- A process whose context is done: what its goroutines still change, and how they end.
use digital_store.Prelude.{
  ℕ, Bool, true, false, any_where, Option, none, List, [], ◌∷◌, ◌≡◌, refl, ◌∙◌, sym, subst, ap,
  if◌then◌else◌, arith,
}
use digital_store.Model.{Db, Env, Platform, Error, err, Tx, context_canceled}
use digital_store.Delivery.Repository.Claim.{claim_next_job, recover_stale_jobs}
use digital_store.Delivery.Service.{Service}
use digital_store.Delivery.Worker.{Wake, stale_after}
use digital_store.Reconciliation.Repair.{repair as repair_of}
use digital_store.System.{committed}
use digital_store.Program.{
  Program, WorkerPhase, claiming, waiting, returned, holding, RepairPhase, absent, repairing, ended,
  Process, Act, request, claim, deliver, wake, repair, repairs_stop, interrupt, server_end, select,
  shut_down, call, after_claim, after_report, after_repair, claim_from, deliver_from, wake_from,
  repair_from, stop_repairs, select_main, step_of, is_refused, act_in, run_acts,
}

abbrev pub is_request : Act → Bool
is_request (request at r) = true
is_request _ = false

-- The context is done, and the store is as it was.
pub record Stopped (p p' : Process) : Type 0 where
  pub done : p'.done ≡ true
  pub same : p'.store ≡ p.store

done_call :
    {A : Type 0} {b : Bool}
    → b ≡ true
    → (lost : Option Error) (m : Tx A) (db : Db) → call b lost m db ≡ err context_canceled
unfolding call
done_call h lost m db = rw h refl

module _ {p : Process} (done : p.done ≡ true) where
  stays : Stopped p p
  stays = record { done = done; same = refl }

  if-Stopped :
      (b : Bool) (q r : Process) → Stopped p q → Stopped p r → Stopped p (if b then q else r)
  if-Stopped true q r hq hr = hq
  if-Stopped false q r hq hr = hr

  claim_from-Stopped :
      (w : WorkerPhase) (locked : ℕ → Bool) (env : Env) (lost : Option Error)
      → Stopped p (claim_from w locked env lost p)
  unfolding claim_from
  claim_from-Stopped claiming locked env lost =
      subst (λ r. Stopped p (after_claim p r))
        (sym (done_call done lost (claim_next_job locked env) p.store.db))
        (record { done = done; same = refl })
  claim_from-Stopped waiting locked env lost = stays
  claim_from-Stopped returned locked env lost = stays
  claim_from-Stopped (holding job) locked env lost = stays

  deliver_from-Stopped :
      (w : WorkerPhase) (plat : Platform) (service : Service) (env : Env) (lost : Option Error)
      → Stopped p (deliver_from w plat service env lost p)
  unfolding deliver_from
  deliver_from-Stopped (holding job) plat service env lost =
      subst (λ r. Stopped p (after_report p r)) (sym (done_call done lost _ p.store.db))
        (record { done = done; same = refl })
  deliver_from-Stopped claiming plat service env lost = stays
  deliver_from-Stopped waiting plat service env lost = stays
  deliver_from-Stopped returned plat service env lost = stays

  wake_from-Stopped : (w : WorkerPhase) (event : Wake) → Stopped p (wake_from w event p)
  unfolding wake_from
  wake_from-Stopped waiting Wake.stopped =
      if-Stopped p.done _ _ (record { done = done; same = refl }) stays
  wake_from-Stopped waiting Wake.timer = record { done = done; same = refl }
  wake_from-Stopped waiting (Wake.recovery env) = record {
    done = done;
    same =
        ap (λ r. committed p.store r)
          (done_call done none (recover_stale_jobs env stale_after) p.store.db);
  }
  wake_from-Stopped claiming event = stays
  wake_from-Stopped returned event = stays
  wake_from-Stopped (holding job) event = stays

  repair_from-Stopped :
      (r : RepairPhase) (plat : Platform) (env : Env) (lost : Option Error)
      → Stopped p (repair_from r plat env lost p)
  unfolding repair_from
  repair_from-Stopped repairing plat env lost =
      subst (λ r. Stopped p (after_repair p r))
        (sym (done_call done lost (repair_of plat env) p.store.db))
        (record { done = done; same = refl })
  repair_from-Stopped absent plat env lost = stays
  repair_from-Stopped ended plat env lost = stays

  stop_repairs-Stopped : (r : RepairPhase) → Stopped p (stop_repairs r p)
  unfolding stop_repairs
  stop_repairs-Stopped repairing = if-Stopped p.done _ _ (record { done = done; same = refl }) stays
  stop_repairs-Stopped absent = stays
  stop_repairs-Stopped ended = stays

  module _ (program : Program) (plat : Platform) where
    step_of-Stopped : (a : Act) → is_request a ≡ false → Stopped p (step_of program plat a p)
    unfolding step_of select_main
    step_of-Stopped (request at r) h = ground (arith, h)
    step_of-Stopped (claim locked env lost) h = claim_from-Stopped p.worker locked env lost
    step_of-Stopped (deliver network env lost) h =
        deliver_from-Stopped p.worker plat (program.service network) env lost
    step_of-Stopped (wake w) h = wake_from-Stopped p.worker w
    step_of-Stopped (repair env lost) h = repair_from-Stopped p.repairs plat env lost
    step_of-Stopped repairs_stop h = stop_repairs-Stopped p.repairs
    step_of-Stopped interrupt h = record { done = refl; same = refl }
    step_of-Stopped server_end h = record { done = done; same = refl }
    step_of-Stopped select h = if-Stopped _ _ _ (record { done = refl; same = refl }) stays
    step_of-Stopped shut_down h = record { done = done; same = refl }

    act_in-Stopped : (a : Act) → is_request a ≡ false → Stopped p (act_in program plat a p)
    unfolding act_in
    act_in-Stopped a h = if-Stopped (is_refused p.main a) _ _ stays (step_of-Stopped a h)

module _ (program : Program) (plat : Platform) where
  -- Once the context of a process is done, nothing but the requests that its server still answers
  -- changes the store: no claim, report, recovery or repair commits any more.
  pub run_acts-stopped :
      (acts : List Act) (p : Process)
      → p.done ≡ true
      → any_where is_request acts ≡ false
      → (run_acts program plat acts p).store ≡ p.store
  unfolding run_acts any_where
  run_acts-stopped [] p done h = refl
  run_acts-stopped (a ∷ acts) p done h =
      let first = act_in-Stopped done program plat a (ground (arith, h)) in
      run_acts-stopped acts _ first.done (ground (arith, h)) ∙ first.same

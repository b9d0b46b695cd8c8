-- ===== src/Tests/Programs.antt =====
-- The results about the programs, applied to the API program on the shop.
use digital_store.Prelude.{Bool, false, true, none, List, [], ◌∷◌, any_where, ◌≡◌, refl}
use digital_store.Config.{load}
use digital_store.Delivery.Provider.{decoded, received}
use digital_store.System.{Run, opened}
use digital_store.Program.{
  Network, Program, api_program, holding, repairing, selecting, Process, Act, claim, deliver,
  repair, interrupt, select, run_acts, start, processes,
}
use digital_store.Program.Runs.{processes-Run}
use digital_store.Program.Lasting.{is_ending, Lasting, run_acts-lasts}
use digital_store.Program.Stopping.{is_request, run_acts-stopped}
use digital_store.Tests.Shop.{platform, catalog, at_time, paid_db, claimed_db, job_7}
use digital_store.Tests.Settings.{numbers, env}

abbrev program : Program
program = api_program (load numbers env)

-- Each provider gives a code.
abbrev network : Network
network base_url timeout request n = received 200 (
    decoded
      (record { status = "ok"; request_id = request.request_id; code = "KEY-1"; reason = "" }))

abbrev claim_30 : Act
claim_30 = claim (λ i. Bool.false) (at_time 30) none

abbrev deliver_40 : Act
deliver_40 = deliver network (at_time 40) none

-- A process that is killed with a job, and the next one.
abbrev lives : List (List Act)
lives = (claim_30 ∷ []) ∷ (claim_30 ∷ deliver_40 ∷ interrupt ∷ select ∷ []) ∷ []

processes-Run_example :
    Run platform
      (record { db = paid_db; jobs = [] })
      (processes program platform lives (record { db = paid_db; jobs = [] }))
processes-Run_example = processes-Run platform program lives (record { db = paid_db; jobs = [] })

abbrev quiet : List Act
quiet = claim_30 ∷ deliver_40 ∷ repair (at_time 50) none ∷ select ∷ []

quiet_goes : any_where is_ending quiet ≡ false
unfolding any_where
quiet_goes = refl

run_acts-lasts_example : Lasting (run_acts program platform quiet (start program (opened catalog)))
run_acts-lasts_example = run_acts-lasts program platform quiet Run.idle quiet_goes

-- The context is done while the providers are asked.
abbrev interrupted : Process
interrupted = record {
  store = record { db = claimed_db; jobs = job_7 ∷ [] };
  done = true;
  server_ended = false;
  worker = holding job_7;
  repairs = repairing;
  main = selecting;
}

abbrev last_acts : List Act
last_acts = deliver_40 ∷ repair (at_time 50) none ∷ select ∷ []

last_acts_silent : any_where is_request last_acts ≡ false
unfolding any_where
last_acts_silent = refl

run_acts-stopped_example :
    (run_acts program platform last_acts interrupted).store ≡ interrupted.store
run_acts-stopped_example =
    run_acts-stopped program platform last_acts interrupted refl last_acts_silent

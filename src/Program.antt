-- ===== src/Program.antt =====
-- cmd/api/main.go and cmd/provider-mock/main.go: the two programs, what they build of the
-- configuration, and their goroutines as one process whose acts follow each other in any order.
pub mod Runs
pub mod Errors
pub mod Lasting
pub mod Stopping
use digital_store.Prelude.{
  ℕ, str_eq, if◌then◌else◌, Bool, true, false, ◌||◌, String, Option, none, some, ℤ, pos, negsuc,
  List, [], ◌∷◌, trim_slashes,
}
use digital_store.Model.{
  Db, Env, Platform, Error, Result, ok, err, Tx, raise, context_canceled, after,
}
use digital_store.Config.{Numbers, Config}
use digital_store.Delivery.Provider.{IssueRequest, Reply, Provider, http_provider}
use digital_store.Delivery.Repository.Claim.{Job, claim_next_job, recover_stale_jobs}
use digital_store.Delivery.Service.{Service, new_service, process}
use digital_store.Delivery.Worker.{Wake, is_canceled, stale_after}
use digital_store.Reconciliation.Repair.{repair as repair_of, RepairResult}
use digital_store.Http.{Server, Moment, new_server, with_operations, with_catalog}
use digital_store.Http.Router.{Request, serve}
use digital_store.System.{State, committed, claimed}

-- The HTTP clients: the reply to each call of a delivery, by the base URL and the timeout.
abbrev pub Network : Type 0
Network = String → ℤ → IssueRequest → ℕ → Reply

-- `NewHTTPProvider`
unfoldable pub new_http_provider : String → String → ℤ → Network → Provider
new_http_provider name base_url timeout network =
    http_provider name (network (trim_slashes base_url) timeout)

-- A number of the configuration that the service reads; a negative one acts as 0 for the retry
-- count, and a negative delay is left out: 0 stands for it.
abbrev pub count_of : ℤ → ℕ
count_of (pos n) = n
count_of (negsuc n) = 0

-- What a program is built of: the server, the service with the providers on a network, and whether
-- it repairs.
pub record Program : Type 0 where
  pub server : Server
  pub service : Network → Service
  pub repairs : Bool

module _ {numbers : Numbers} (cfg : Config numbers) where
  unfoldable pub service_of : Network → Service
  service_of network =
      new_service (new_http_provider "provider_a" cfg.provider_a_url cfg.provider_timeout network)
        (new_http_provider "provider_b" cfg.provider_b_url cfg.provider_timeout network)
        (count_of cfg.provider_retry_count) (count_of cfg.delivery_retry_delay)

  unfoldable pub api_program : Program
  api_program = record {
    server = new_server (with_operations true true ∷ with_catalog true ∷ []);
    service = service_of;
    repairs = true;
  }

  unfoldable pub mock_program : Program
  mock_program = record { server = new_server []; service = service_of; repairs = false }

-- Where the worker is: before a claim, at the providers with a job, in its `select`, or gone.
pub data WorkerPhase : Type 0 where
  claiming waiting returned : WorkerPhase
  holding : Job → WorkerPhase

pub data RepairPhase : Type 0 where
  absent repairing ended : RepairPhase

pub data MainPhase : Type 0 where
  selecting stopping exited : MainPhase

-- The process: the store, with the jobs that were ever claimed; whether its context is done, and
-- whether the HTTP server has ended; and where its goroutines are.
pub record Process : Type 0 where
  pub store : State
  pub done : Bool
  pub server_ended : Bool
  pub worker : WorkerPhase
  pub repairs : RepairPhase
  pub main : MainPhase

-- What happens next. A call of a repository has the error of the connection where it meets one, and
-- a delivery the replies of the network.
pub data Act : Type 0 where
  request : Moment → Request → Act
  claim : (ℕ → Bool) → Env → Option Error → Act
  deliver : Network → Env → Option Error → Act
  wake : Wake → Act
  repair : Env → Option Error → Act
  repairs_stop interrupt server_end select shut_down : Act

abbrev pub is_returned : WorkerPhase → Bool
is_returned WorkerPhase.returned = true
is_returned _ = false

abbrev pub is_ended : RepairPhase → Bool
is_ended RepairPhase.ended = true
is_ended _ = false

abbrev pub is_selecting : MainPhase → Bool
is_selecting MainPhase.selecting = true
is_selecting _ = false

-- A call of a repository: it fails where the context is done or the connection is lost.
unfoldable pub call : {A : Type 0} → Bool → Option Error → Tx A → Tx A
call true lost m db = raise context_canceled db
call false (some e) m db = raise e db
call false none m db = m db

-- After a claim of `processNext`.
abbrev pub claimed_phase : Result (Option Job × Db) → WorkerPhase
claimed_phase (err e) = if is_canceled e then WorkerPhase.returned else WorkerPhase.waiting
claimed_phase (ok (none, db)) = WorkerPhase.waiting
claimed_phase (ok (some job, db)) = WorkerPhase.holding job

-- After `Process`: an error is logged, unless the context is done.
abbrev pub reported_phase : Result (Unit {0} × Db) → WorkerPhase
reported_phase (err e) = if is_canceled e then WorkerPhase.returned else WorkerPhase.claiming
reported_phase (ok r) = WorkerPhase.claiming

-- After a repair of the loop.
abbrev pub repaired_phase : Result (RepairResult × Db) → RepairPhase
repaired_phase (err e) = RepairPhase.ended
repaired_phase (ok r) = RepairPhase.repairing

abbrev pub after_claim : Process → Result (Option Job × Db) → Process
after_claim p r = record p { store = claimed p.store r; worker = claimed_phase r }

abbrev pub after_report : Process → Result (Unit {0} × Db) → Process
after_report p r = record p { store = committed p.store r; worker = reported_phase r }

abbrev pub after_repair : Process → Result (RepairResult × Db) → Process
after_repair p r = record p { store = committed p.store r; repairs = repaired_phase r }

-- The ticker of the recovery: an error of `RecoverStaleJobs` is logged.
abbrev pub recovered : Process → Env → Process
recovered p env = record p {
  store = committed p.store (call p.done none (recover_stale_jobs env stale_after) p.store.db);
  worker = WorkerPhase.claiming;
}

unfoldable pub claim_from : WorkerPhase → (ℕ → Bool) → Env → Option Error → Process → Process
claim_from WorkerPhase.claiming locked env lost p =
    after_claim p (call p.done lost (claim_next_job locked env) p.store.db)
claim_from _ locked env lost p = p

unfoldable pub deliver_from :
    WorkerPhase → Platform → Service → Env → Option Error → Process → Process
deliver_from (WorkerPhase.holding job) plat service env lost p =
    after_report p (
      call p.done lost (process plat env service job (λ n. p.done) (λ n. p.done) p.done) p.store.db)
deliver_from _ plat service env lost p = p

-- The `select` of the worker; its context ends a wait only when it is done.
unfoldable pub wake_from : WorkerPhase → Wake → Process → Process
wake_from WorkerPhase.waiting Wake.stopped p =
    if p.done then record p { worker = WorkerPhase.returned } else p
wake_from WorkerPhase.waiting Wake.timer p = record p { worker = WorkerPhase.claiming }
wake_from WorkerPhase.waiting (Wake.recovery env) p = recovered p env
wake_from _ w p = p

unfoldable pub repair_from : RepairPhase → Platform → Env → Option Error → Process → Process
repair_from RepairPhase.repairing plat env lost p =
    after_repair p (call p.done lost (repair_of plat env) p.store.db)
repair_from _ plat env lost p = p

unfoldable pub stop_repairs : RepairPhase → Process → Process
stop_repairs RepairPhase.repairing p =
    if p.done then record p { repairs = RepairPhase.ended } else p
stop_repairs _ p = p

-- The `select` of `main`, and `stop()` after it.
unfoldable pub select_main : Process → Process
select_main p =
    if p.done || p.server_ended || is_returned p.worker || is_ended p.repairs
    then record p { done = true; main = MainPhase.stopping }
    else p

unfoldable pub serve_in : Program → Platform → Moment → Request → Process → Process
serve_in program plat at r p = record p {
  store = record p.store { db = (serve program.server plat at r p.store.db).1 };
}

unfoldable pub step_of : Program → Platform → Act → Process → Process
step_of program plat (request at r) p = serve_in program plat at r p
step_of program plat (claim locked env lost) p = claim_from p.worker locked env lost p
step_of program plat (deliver network env lost) p =
    deliver_from p.worker plat (program.service network) env lost p
step_of program plat (wake w) p = wake_from p.worker w p
step_of program plat (repair env lost) p = repair_from p.repairs plat env lost p
step_of program plat repairs_stop p = stop_repairs p.repairs p
step_of program plat interrupt p = record p { done = true }
step_of program plat server_end p = record p { server_ended = true }
step_of program plat select p = select_main p
step_of program plat shut_down p = record p { main = MainPhase.exited }

-- `main` shuts the server down after its `select` only, and nothing happens in a process that has
-- exited.
abbrev pub is_refused : MainPhase → Act → Bool
is_refused MainPhase.exited a = true
is_refused MainPhase.selecting shut_down = true
is_refused m a = false

unfoldable pub act_in : Program → Platform → Act → Process → Process
act_in program plat a p = if is_refused p.main a then p else step_of program plat a p

unfoldable pub run_acts : Program → Platform → List Act → Process → Process
run_acts program plat [] p = p
run_acts program plat (a ∷ acts) p = run_acts program plat acts (act_in program plat a p)

-- `main`, once the database is open
unfoldable pub start : Program → State → Process
start program s = record {
  store = s;
  done = false;
  server_ended = false;
  worker = WorkerPhase.claiming;
  repairs = if program.repairs then RepairPhase.repairing else RepairPhase.absent;
  main = MainPhase.selecting;
}

-- One process after another on the same database, each with its acts; a process that is killed has
-- no more of them.
unfoldable pub processes : Program → Platform → List (List Act) → State → State
processes program plat [] s = s
processes program plat (acts ∷ rest) s =
    processes program plat rest (run_acts program plat acts (start program s)).store

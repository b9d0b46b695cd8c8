-- ===== src/System.antt =====
-- The store as a whole: the HTTP handlers, the delivery worker and the repair loop as interleaved
-- transactions on one database, with the jobs that workers have claimed.
use mathlib.Core.List.{Memᴰ}
use digital_store.Prelude.{ℕ, Bool, String, Option, none, some, List, [], ◌∷◌}
use digital_store.Model.{Db, Product, PaymentWebhook, Result, ok, err, Env, Platform}
use digital_store.Order.{create, process_payment}
use digital_store.Delivery.Repository.Claim.{Job, claim_next_job, recover_stale_jobs}
use digital_store.Delivery.Repository.Report.{mark_delivered, mark_out_of_stock, mark_failed}
use digital_store.Reconciliation.Retry.{retry_delivery}
use digital_store.Reconciliation.Repair.{repair}
pub mod Runs
pub mod Sound
pub mod Safety

-- A job stays in flight for ever: a worker can report it late, twice or never.
pub record State : Type 0 where
  pub db : Db
  pub jobs : List Job

-- A transaction that fails is rolled back.
abbrev pub committed : {A : Type 0} → State → Result (A × Db) → State
committed s (ok (a, db)) = record s { db = db }
committed s (err e) = s

abbrev pub with_job : Option Job → List Job → List Job
with_job none jobs = jobs
with_job (some job) jobs = job ∷ jobs

abbrev pub claimed : State → Result (Option Job × Db) → State
claimed s (ok (r, db)) = record { db = db; jobs = with_job r s.jobs }
claimed s (err e) = s

-- One transaction. The time and the ids that it draws are any; a worker can have claimed a job at
-- any time before it reports it, and rows that other transactions hold are skipped by a claim.
pub data Step (plat : Platform) (s : State) : State → Type 0 where
  order_created :
      (env : Env) (id : ℕ) (sku : String) → Step plat s (committed s (create plat env id sku s.db))
  payment_received :
      (env : Env) (event : PaymentWebhook) (payload : String)
      → Step plat s (committed s (process_payment plat env event payload s.db))
  job_claimed :
      (locked : ℕ → Bool) (env : Env) → Step plat s (claimed s (claim_next_job locked env s.db))
  job_delivered :
      (env : Env) (job : Job) (provider code : String)
      → Memᴰ job s.jobs
      → Step plat s (committed s (mark_delivered env job provider code s.db))
  job_out_of_stock :
      (env : Env) (job : Job) (message : String) (delay : ℕ)
      → Memᴰ job s.jobs
      → Step plat s (committed s (mark_out_of_stock env job message delay s.db))
  job_failed :
      (env : Env) (job : Job) (message : String) (delay : ℕ)
      → Memᴰ job s.jobs
      → Step plat s (committed s (mark_failed env job message delay s.db))
  jobs_recovered :
      (env : Env) (stale_after : ℕ)
      → Step plat s (committed s (recover_stale_jobs env stale_after s.db))
  delivery_retried :
      (env : Env) (id : ℕ) → Step plat s (committed s (retry_delivery plat env id s.db))
  orders_repaired : (env : Env) → Step plat s (committed s (repair plat env s.db))

-- Any number of transactions, in the order in which they commit.
pub data Run (plat : Platform) (s : State) : State → Type 0 where
  idle : Run plat s s
  then : {s' s'' : State} → Run plat s s' → Step plat s' s'' → Run plat s s''

-- A database with a catalog and nothing else.
abbrev pub opened : List Product → State
opened products = record {
  db = record {
    products = products;
    orders = [];
    delivery_attempts = [];
    payment_events = [];
    ledger_entries = [];
  };
  jobs = [];
}

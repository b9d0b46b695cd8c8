-- ===== src/Delivery/Worker.antt =====
-- internal/delivery/worker.go: one turn of the worker, and its loop over any number of turns. The
-- poll interval only says when the timer of a wait fires.
pub mod Turns
pub mod Waiting
pub mod Fewer
pub mod Drain
pub mod Runs
use digital_store.Prelude.{
  ℕ, if◌then◌else◌, Bool, true, false, Option, none, some, List, [], ◌∷◌, option_any,
}
use digital_store.Model.{
  Db, Env, Platform, Error, Result, ok, err, Tx, raise, after, context_canceled,
}
use digital_store.Delivery.Repository.Claim.{Job, claim_next_job, recover_stale_jobs}
use digital_store.Delivery.Service.{Service, process}

-- What surrounds a turn: what other transactions do before it and while the providers are asked, the
-- rows that they hold, the clock of the claim and of the report, the error of the connection where
-- the claim meets one, and the service, whose providers give any answers in this turn.
pub record Turn : Type 0 where
  pub before : Db → Db
  pub locked : ℕ → Bool
  pub claim_env : Env
  pub lost : Option Error
  pub service : Service
  pub a_cancelled : ℕ → Bool
  pub b_cancelled : ℕ → Bool
  pub meanwhile : Db → Db
  pub report_env : Env
  pub done : Bool

-- The results of `processNext`, with the database.
pub record Processing : Type 0 where
  pub processed : Bool
  pub error : Option Error
  pub db : Db

abbrev pub error_of : {A : Type 0} → Result (A × Db) → Option Error
error_of (ok r) = none
error_of (err e) = some e

unfoldable pub claim : Turn → Tx (Option Job)
claim turn db = elim turn.lost [
  | none ↦ claim_next_job turn.locked turn.claim_env db
  | some e ↦ raise e db
]

unfoldable pub work : Platform → Turn → Job → Db → Processing
work plat turn job db =
    let m =
      process plat turn.report_env turn.service job turn.a_cancelled turn.b_cancelled turn.done in
    record { processed = true; error = error_of (m db); db = after m db }

-- After the claim.
unfoldable pub proceed : Platform → Turn → Db → Result (Option Job × Db) → Processing
proceed plat turn db (err e) = record { processed = false; error = some e; db = db }
proceed plat turn db (ok (none, db')) = record { processed = false; error = none; db = db' }
proceed plat turn db (ok (some job, db')) = work plat turn job (turn.meanwhile db')

-- `processNext`
unfoldable pub process_next : Platform → Turn → Db → Processing
process_next plat turn db = let start = turn.before db in proceed plat turn start (claim turn start)

-- What ends the wait of a turn that found no job: the context, the ticker of the recovery, or the
-- timer.
pub data Wake : Type 0 where
  stopped timer : Wake
  recovery : Env → Wake

pub record Round : Type 0 where
  pub turn : Turn
  pub wake : Wake

-- `errors.Is(err, context.Canceled)`
abbrev pub is_canceled : Error → Bool
is_canceled Error.context_canceled = true
is_canceled e = false

-- Whether `Run` has returned, and the database.
pub record Ran : Type 0 where
  pub returned : Bool
  pub db : Db

-- `2*time.Minute`; a duration is in nanoseconds
abbrev pub stale_after : ℕ
stale_after = 120_000_000_000

-- The `select` of a round; `rest` is the loop after it.
unfoldable pub wait : Wake → (Db → Ran) → Db → Ran
wait stopped rest db = record { returned = true; db = db }
wait timer rest db = rest db
wait (recovery env) rest db = rest (after (recover_stale_jobs env stale_after) db)

-- The loop body after `processNext`.
unfoldable pub round : Wake → Processing → (Db → Ran) → Ran
round wake p rest =
    if option_any is_canceled p.error
    then record { returned = true; db = p.db }
    else if p.processed
    then rest p.db
    else wait wake rest p.db

-- `Run`, over the rounds that it makes
unfoldable pub run : Platform → List Round → Db → Ran
run plat [] db = record { returned = false; db = db }
run plat (r ∷ rs) db = round r.wake (process_next plat r.turn db) (run plat rs)

-- ===== src/Reconciliation/Loop.antt =====
-- internal/reconciliation/service.go: `RunRepairLoop`, over any number of ticks.
pub mod Runs
use digital_store.Prelude.{
  ℕ, leb, if◌then◌else◌, String, Option, none, some, List, [], ◌∷◌, ℤ, pos, negsuc, ◌==◌,
}
use digital_store.Model.{Db, Env, Platform, Error, Result, ok, err, Tx, raise}
use digital_store.Reconciliation.Repair.{RepairResult, repair}

-- A repair of the loop: what others do before it, its clock, and the error of the connection where
-- it meets one.
pub record Tick : Type 0 where
  pub before : Db → Db
  pub env : Env
  pub lost : Option Error

-- What the `select` sees next.
pub data Event : Type 0 where
  done : Event
  tick : Tick → Event

-- Whether the loop still runs, has returned nil, or has returned an error with its text.
pub data Ended : Type 0 where
  running stopped : Ended
  failed : String → Error → Ended

pub record Looped : Type 0 where
  pub ended : Ended
  pub db : Db

-- The interval of the ticker, in nanoseconds: 30 seconds where it is not positive.
unfoldable pub interval_of : ℤ → ℕ
interval_of (negsuc n) = 30_000_000_000
interval_of (pos n) = if n == 0 then 30_000_000_000 else n

unfoldable pub repair_at : Platform → Tick → Tx RepairResult
repair_at plat t db = elim t.lost [ none ↦ repair plat t.env db | some e ↦ raise e db ]

-- After a repair of `db`; an error ends the loop.
unfoldable pub repaired_at : String → Db → Result (RepairResult × Db) → (Db → Looped) → Looped
repaired_at text db (ok (r, db')) rest = rest db'
repaired_at text db (err e) rest = record { ended = failed text e; db = db }

unfoldable pub repair_then : Platform → String → Tick → (Db → Looped) → Db → Looped
repair_then plat text t rest db =
    let start = t.before db in repaired_at text start (repair_at plat t start) rest

unfoldable pub repair_loop : Platform → List Event → Db → Looped
repair_loop plat [] db = record { ended = running; db = db }
repair_loop plat (done ∷ events) db = record { ended = stopped; db = db }
repair_loop plat (tick t ∷ events) db =
    repair_then plat "periodic reconciliation repair" t (repair_loop plat events) db

-- `RunRepairLoop`: the first repair is made at once.
unfoldable pub run_repair_loop : Platform → Tick → List Event → Db → Looped
run_repair_loop plat first events =
    repair_then plat "initial reconciliation repair" first (repair_loop plat events)

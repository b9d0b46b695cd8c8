-- ===== src/System/Runs.antt =====
-- How runs of the store are put together.
use digital_store.Model.{Db, Platform, Result, ok, err, Tx, after}
use digital_store.System.{State, committed, Step, Run}

pub Run-trans :
    {plat : Platform} {s s' s'' : State} → Run plat s s' → Run plat s' s'' → Run plat s s''
Run-trans r Run.idle = r
Run-trans r (Run.then q step) = Run.then (Run-trans r q) step

-- A transaction that is a step, by the database after it.
pub Step-Run :
    {A : Type 0} {plat : Platform} {s : State} (m : Tx A)
    → Step plat s (committed s (m s.db))
    → Run plat s (record s { db = after m s.db })
Step-Run {A} {plat} {s} m step = go (m s.db) (Run.then Run.idle step)
  where
    go :
        (r : Result (A × Db))
        → Run plat s (committed s r)
        → Run plat s (record s { db = after (λ db. r) s.db })
    go (ok (a, db)) h = h
    go (err e) h = h

-- Something that changes the database only by transactions of the store, from any state.
pub record IsRun (plat : Platform) (f : Db → Db) : Type 0 where
  pub runs : (s : State) → Run plat s (record s { db = f s.db })

pub idle-IsRun : {plat : Platform} → IsRun plat (λ db. db)
idle-IsRun = record { runs = λ s. Run.idle }

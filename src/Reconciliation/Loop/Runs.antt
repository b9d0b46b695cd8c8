-- ===== src/Reconciliation/Loop/Runs.antt =====
-- The repair loop changes the database by transactions of the store only, and of a coherent one it
-- changes nothing.
use digital_store.Prelude.{
  ℕ, ◌<◌, Option, none, some, List, [], ◌∷◌, ◌≡◌, refl, ◌∙◌, arith, ℤ, pos, negsuc, String,
}
use digital_store.Model.{Db, Platform, Result, ok, err, Error}
use digital_store.Reconciliation.Repair.{repair, RepairResult}
use digital_store.Reconciliation.Loop.{
  Tick, Event, done, tick, running, stopped, Looped, interval_of, repair_at, repaired_at,
  repair_then, repair_loop, run_repair_loop,
}
use digital_store.System.{State, Step, Run, committed}
use digital_store.System.Runs.{Run-trans, IsRun}
use digital_store.Coherence.Invariant.{Memory, Coherent}
use digital_store.Coherence.Repairs.{repair-Coherent}

-- `time.NewTicker` panics on an interval that is not positive.
pub interval_of-pos : (i : ℤ) → 0 < interval_of i
unfolding interval_of
interval_of-pos (negsuc n) = ground arith
interval_of-pos (pos n) = ground arith

abbrev pub AllRuns : Platform → List Event → Type 0
AllRuns plat [] = Unit {0}
AllRuns plat (done ∷ events) = Unit {0}
AllRuns plat (tick t ∷ events) = IsRun plat t.before × AllRuns plat events

module _ (plat : Platform) where
  repair_then-Run :
      (text : String) (t : Tick) (rest : Db → Looped) (s : State)
      → IsRun plat t.before
      → ((s : State) → Run plat s (record s { db = (rest s.db).db }))
      → Run plat s (record s { db = (repair_then plat text t rest s.db).db })
  unfolding repair_then repair_at repaired_at
  repair_then-Run text t rest s shared h =
      Run-trans (shared.runs s) (go (record s { db = t.before s.db }) t.lost)
    where
      committed_by :
          (s : State) (r : Result (RepairResult × Db))
          → Run plat s (committed s r)
          → Run plat s (record s { db = (repaired_at text s.db r rest).db })
      committed_by s (ok (r, db)) run = Run-trans run (h (record s { db = db }))
      committed_by s (err e) run = Run.idle

      go :
          (s : State) (lost : Option Error)
          → Run plat s (record s {
            db =
                (repaired_at text s.db
                  ((elim lost [ none ↦ repair plat t.env s.db | some e ↦ err e ]))
                  rest).db;
          })
      go s none =
          committed_by s (repair plat t.env s.db) (Run.then Run.idle (Step.orders_repaired t.env))
      go s (some e) = Run.idle

  repair_loop-Run :
      (events : List Event) (s : State)
      → AllRuns plat events
      → Run plat s (record s { db = (repair_loop plat events s.db).db })
  unfolding repair_loop
  repair_loop-Run [] s shared = Run.idle
  repair_loop-Run (done ∷ events) s shared = Run.idle
  repair_loop-Run (tick t ∷ events) s (shared, others) =
      repair_then-Run _ t (repair_loop plat events) s shared
        (λ s'. repair_loop-Run events s' others)

  -- The repair loop, over any number of ticks, takes the store to a state that it reaches.
  pub run_repair_loop-Run :
      (first : Tick) (events : List Event) (s : State)
      → IsRun plat first.before
      → AllRuns plat events
      → Run plat s (record s { db = (run_repair_loop plat first events s.db).db })
  unfolding run_repair_loop
  run_repair_loop-Run first events s shared others =
      repair_then-Run _ first (repair_loop plat events) s shared
        (λ s'. repair_loop-Run events s' others)

  -- The tick meets no error of the connection, and what the others do before it keeps the database
  -- coherent.
  pub record IsQuiet (known : ℕ → Memory) (t : Tick) : Type 0 where
    pub connected : t.lost ≡ none
    pub keeps : (db : Db) → Coherent known db → Coherent known (t.before db)

  abbrev pub AllQuiet : (ℕ → Memory) → List Event → Type 0
  AllQuiet known [] = Unit {0}
  AllQuiet known (done ∷ events) = Unit {0}
  AllQuiet known (tick t ∷ events) = IsQuiet known t × AllQuiet known events

  -- How the loop ends, and the database, where its repairs neither fail nor change anything.
  abbrev pub ended_by : List Event → Db → Looped
  ended_by [] db = record { ended = running; db = db }
  ended_by (done ∷ events) db = record { ended = stopped; db = db }
  ended_by (tick t ∷ events) db = ended_by events (t.before db)

  repair_then-quiet :
      {known : ℕ → Memory} (text : String) (t : Tick) (rest : Db → Looped) (db : Db)
      → IsQuiet known t
      → Coherent known db
      → repair_then plat text t rest db ≡ rest (t.before db)
  unfolding repair_then repair_at repaired_at
  repair_then-quiet text t rest db q c =
      ground (arith, q.connected, repair-Coherent (q.keeps db c) plat t.env)

  repair_loop-quiet :
      {known : ℕ → Memory} (events : List Event) (db : Db)
      → AllQuiet known events
      → Coherent known db
      → repair_loop plat events db ≡ ended_by events db
  unfolding repair_loop
  repair_loop-quiet [] db q c = refl
  repair_loop-quiet (done ∷ events) db q c = refl
  repair_loop-quiet (tick t ∷ events) db (q, others) c =
      repair_then-quiet _ t (repair_loop plat events) db q c
      ∙ repair_loop-quiet events (t.before db) others (q.keeps db c)

  -- On a coherent database the repair loop never returns an error and never changes anything: it
  -- runs until its context is done, and the database is what the others make of it. They keep it
  -- coherent, and no connection is lost.
  pub run_repair_loop-quiet :
      {known : ℕ → Memory} (first : Tick) (events : List Event) (db : Db)
      → IsQuiet known first
      → AllQuiet known events
      → Coherent known db
      → run_repair_loop plat first events db ≡ ended_by events (first.before db)
  unfolding run_repair_loop
  run_repair_loop-quiet first events db q others c =
      repair_then-quiet _ first (repair_loop plat events) db q c
      ∙ repair_loop-quiet events (first.before db) others (q.keeps db c)

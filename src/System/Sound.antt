-- ===== src/System/Sound.antt =====
-- Every transaction keeps the database coherent with what the workers remember.
use mathlib.Core.List.{Memᴰ}
use digital_store.Prelude.{
  find_where, any_where, count_where, ℕ, ◌==◌, false, not, Option, none, some, List, ◌∷◌, ◌≡◌, refl,
  ◌∙◌, arith, option_any,
}
use digital_store.Model.{
  Db, Product, Result, ok, err, Platform, Tx, order_of, attempt_of, payment_entries,
  delivery_entries,
}
use digital_store.Model.View.{View, view}
use digital_store.Delivery.Repository.Claim.{Job, claim_next_job, recover_stale_jobs}
use digital_store.Delivery.Repository.Report.{mark_delivered, mark_out_of_stock, mark_failed}
use digital_store.Reconciliation.Retry.{retry_delivery}
use digital_store.Order.Lifecycle.{Phase, phase_of}
use digital_store.Order.{create, process_payment}
use digital_store.Coherence.Invariant.{Memory, Coupled, Coherent, order_status, delivered_code}
use digital_store.Coherence.Keeps.{OnOk, Keeps}
use digital_store.Coherence.Orders.{process_payment-Keeps}
use digital_store.Coherence.Create.{create-Keeps}
use digital_store.Coherence.Jobs.{remember_job, claim_next_job-Coherent, claim_next_job-remembered}
use digital_store.Coherence.Reports.{
  mark_delivered-Coherent, mark_out_of_stock-Coherent, mark_failed-Coherent,
}
use digital_store.Coherence.Recovery.{recover_stale_jobs-Keeps}
use digital_store.Coherence.Retries.{retry_delivery-Keeps}
use digital_store.Coherence.Repairs.{repair-Coherent}
use digital_store.System.{State, committed, claimed, Step, Run, opened}

-- The database is coherent with a memory that has the attempt of every job in flight.
pub record Sound (known : ℕ → Memory) (s : State) : Type 0 where
  pub coherent : Coherent known s.db
  pub jobs : (job : Job) → Memᴰ job s.jobs → (known job.order_id).attempt ≡ some job.delivery_id

-- A memory that goes on: it may have more attempts, and the rest is as it was.
pub record Goes (known known' : ℕ → Memory) : Type 0 where
  pub phase : (k : ℕ) → (known' k).phase ≡ (known k).phase
  pub code : (k : ℕ) → (known' k).code ≡ (known k).code

module _ {known : ℕ → Memory} {s : State} (sound : Sound known s) where
  -- After a transaction that keeps the database coherent.
  committed-Sound :
      {A : Type 0} (r : Result (A × Db))
      → OnOk (λ a db'. Coherent known db') r
      → Sound known (committed s r)
  committed-Sound (ok (a, db)) h = record { coherent = h.holds; jobs = sound.jobs }
  committed-Sound (err e) h = sound

  claimed-Sound :
      (r : Result (Option Job × Db))
      → OnOk (λ job db'. Coherent (remember_job job known) db') r
      → OnOk
          (λ job db'.
            option_any
              (λ j. option_any (λ i. not (i == j.delivery_id)) (known j.order_id).attempt)
              job
            ≡ false)
          r
      → (known' : ℕ → Memory) × Sound known' (claimed s r) × Goes known known'
  claimed-Sound (ok (none, db)) h same = (
    known,
    record { coherent = h.holds; jobs = sound.jobs },
    record { phase = λ k. refl; code = λ k. refl },
  )
  claimed-Sound (ok (some job, db)) h same = (
    remember_job (some job) known,
    record { coherent = h.holds; jobs = kept },
    record { phase = λ k. ground arith; code = λ k. ground arith },
  )
    where
      kept :
          (j : Job)
          → Memᴰ j (job ∷ s.jobs)
          → (remember_job (some job) known j.order_id).attempt ≡ some j.delivery_id
      kept j (Memᴰ.head e) = ground (arith, e)
      kept j (Memᴰ.tail m) = ground (arith, sound.jobs j m, same.holds)
  claimed-Sound (err e) h same = (known, sound, record { phase = λ k. refl; code = λ k. refl })

-- A step keeps a sound state sound, and the memory goes on.
pub Step-Sound :
    {plat : Platform} {known : ℕ → Memory} {s s' : State}
    → Sound known s
    → Step plat s s'
    → (known' : ℕ → Memory) × Sound known' s' × Goes known known'
Step-Sound {plat} {known} {s} h step = go step
  where
    as_before :
        {s' : State} → Sound known s' → (known' : ℕ → Memory) × Sound known' s' × Goes known known'
    as_before h' = (known, h', record { phase = λ k. refl; code = λ k. refl })

    keeps :
        {A : Type 0} (m : Tx A)
        → Keeps (Coherent known) m
        → (known' : ℕ → Memory) × Sound known' (committed s (m s.db)) × Goes known known'
    keeps m k = as_before (committed-Sound h (m s.db) (k.at s.db h.coherent))

    go : {s' : State} → Step plat s s' → (known' : ℕ → Memory) × Sound known' s' × Goes known known'
    go (Step.order_created env id sku) =
        keeps (create plat env id sku) (create-Keeps plat env id sku)
    go (Step.payment_received env event payload) =
        keeps (process_payment plat env event payload)
          (process_payment-Keeps plat env event payload)
    go (Step.job_claimed locked env) =
        claimed-Sound h (claim_next_job locked env s.db)
          (claim_next_job-Coherent locked env known s.db h.coherent)
          (claim_next_job-remembered locked env known s.db h.coherent)
    go (Step.job_delivered env job provider code m) = as_before (
        committed-Sound h (mark_delivered env job provider code s.db)
          (mark_delivered-Coherent env h.coherent job (h.jobs job m) provider code))
    go (Step.job_out_of_stock env job message delay m) = as_before (
        committed-Sound h (mark_out_of_stock env job message delay s.db)
          (mark_out_of_stock-Coherent env h.coherent job (h.jobs job m) message delay))
    go (Step.job_failed env job message delay m) = as_before (
        committed-Sound h (mark_failed env job message delay s.db)
          (mark_failed-Coherent env h.coherent job (h.jobs job m) message delay))
    go (Step.jobs_recovered env stale_after) =
        keeps (recover_stale_jobs env stale_after) (recover_stale_jobs-Keeps env stale_after)
    go (Step.delivery_retried env id) =
        keeps (retry_delivery plat env id) (retry_delivery-Keeps plat env id)
    go (Step.orders_repaired env) = as_before (rw (repair-Coherent h.coherent plat env) h)

pub Run-Sound :
    {plat : Platform} {known : ℕ → Memory} {s s' : State}
    → Sound known s
    → Run plat s s'
    → (known' : ℕ → Memory) × Sound known' s' × Goes known known'
Run-Sound {known} h Run.idle = (known, h, record { phase = λ k. refl; code = λ k. refl })
Run-Sound h (Run.then run step) =
    let (k1, h1, g1) = Run-Sound h run in
    let (k2, h2, g2) = Step-Sound h1 step in
    (k2, h2, record { phase = λ k. g2.phase k ∙ g1.phase k; code = λ k. g2.code k ∙ g1.code k })

-- Nothing is remembered.
abbrev pub unknown : ℕ → Memory
unknown k = record { attempt = none; phase = Phase.absent; code = none }

pub opened-Sound : (products : List Product) → Sound unknown (opened products)
unfolding order_of attempt_of payment_entries delivery_entries find_where count_where any_where
opened-Sound products = record {
  coherent = record {
    keyed = record { order_ids = tt; attempt_ids = tt; attempt_orders = tt; no_refund = refl };
    coupled = λ k. ground arith;
  };
  jobs = λ job m. elim m [ ];
}

-- All that can be seen now of each order can be remembered.
abbrev pub seen : (ℕ → Memory) → Db → ℕ → Memory
seen known db k = record {
  attempt = (known k).attempt;
  phase = phase_of (order_status (view k db));
  code = delivered_code (view k db);
}

pub seen-Sound : {known : ℕ → Memory} {s : State} → Sound known s → Sound (seen known s.db) s
seen-Sound {known} {s} h = record {
  coherent = record {
    keyed = h.coherent.keyed;
    coupled = λ k. remember_all (view k s.db) (h.coherent.coupled k);
  };
  jobs = h.jobs;
}
  where
    remember_all :
        {n : Memory} (v : View)
        → Coupled n v
        → Coupled
            (record {
              attempt = n.attempt;
              phase = phase_of (order_status v);
              code = delivered_code v;
            })
            v
    remember_all v c = ground arith

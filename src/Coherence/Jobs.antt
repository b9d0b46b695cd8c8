-- ===== src/Coherence/Jobs.antt =====
-- Claiming a job and recovering the jobs of lost workers keep the database coherent.

use mathlib.Core.List.{Memᴰ}
use digital_store.Prelude.{
  String, option_any, not, false, ℕ, ◌==◌, if◌then◌else◌, Bool, true, List, [], ◌∷◌, Option, none,
  some, ◌≡◌, refl, sym, ap, ◌∙◌, arith, subst,
}
use digital_store.Prelude.Rows.{select_where-Memᴰ, sort_by-Memᴰ, find_where-Memᴰ}
use digital_store.Model.{
  is_processing, Db, DeliveryAttempt, is_claimable, awaits_delivery, Env, attempt_of,
  update_attempts,
}
use digital_store.Model.View.{View, view, on, map_attempt, map_order, view-update_order}
use digital_store.Delivery.Repository.Claim.{
  Job, is_candidate, claimed_before, candidates, first_row, next_candidate, processing_row,
  is_claimable_row, mark_processing, delivering_row, mark_delivering, claim_attempt, claim_if_found,
  claim_next_job,
}
use digital_store.Coherence.Invariant.{Memory, Tabled, Coupled, Coherent}
use digital_store.Coherence.Keeps.{OnOk-any, OnOk-bind, OnOk, OnOk-ok}
use digital_store.Coherence.Acts.{on-on, Coherent-on}
use digital_store.Coherence.Statements.{update_order-Tabled, update_attempts-Tabled}
use digital_store.Coherence.Attempts.{view-update_attempt}

-- Attempt `i` of order `o` is remembered.
abbrev pub remember : ℕ → ℕ → (ℕ → Memory) → ℕ → Memory
remember o i known k = if o == k then record (known k) { attempt = some i } else known k

abbrev pub remember_job : Option Job → (ℕ → Memory) → ℕ → Memory
remember_job none known = known
remember_job (some job) known = remember job.order_id job.delivery_id known

-- The row that the queue gives is a row of the table that can be claimed.
pub next_candidate-Memᴰ :
    (locked : ℕ → Bool) (now : ℕ) (db : Db) (d : DeliveryAttempt)
    → next_candidate locked now db ≡ some d
    → Memᴰ d db.delivery_attempts × (is_candidate locked now db d ≡ true)
unfolding next_candidate candidates
next_candidate-Memᴰ locked now db d e =
    select_where-Memᴰ (is_candidate locked now db) d db.delivery_attempts
      (sort_by-Memᴰ claimed_before d _ (first (candidates locked now db) e))
  where
    first : (ds : List DeliveryAttempt) → first_row ds ≡ some d → Memᴰ d ds
    first [] h = cc
    first (x ∷ ds) h = Memᴰ.head (ground arith)

claimed-Coupled :
    (env : Env) (d : DeliveryAttempt) (n : Memory) (v : View)
    → v.attempt ≡ some d
    → is_claimable d.status ≡ true
    → Coupled n v
    → Coupled
        (record n { attempt = some d.id })
        (map_order
          (λ o. awaits_delivery o.status)
          (delivering_row env)
          (map_attempt (λ x. is_claimable x.status) (processing_row env) v))
unfolding delivering_row processing_row
claimed-Coupled env d n v e p c = ground arith

module _ (env : Env) (d : DeliveryAttempt) (known : ℕ → Memory) (db : Db) (c : Coherent known db)
    (found : attempt_of d.order_id db ≡ some d) (claimable : is_claimable d.status ≡ true) where
  claimed : Db
  claimed =
      mark_delivering env d.order_id
        (update_attempts (is_claimable_row d.id) (processing_row env) db)

  abbrev take_attempt : View → View
  take_attempt = map_attempt (λ x. is_claimable x.status) (processing_row env)

  abbrev take_order : View → View
  take_order = map_order (λ o. awaits_delivery o.status) (delivering_row env)

  claimed-view :
      (k : ℕ) → view k claimed ≡ on d.order_id k (λ v. take_order (take_attempt v)) (view k db)
  unfolding claimed mark_delivering delivering_row processing_row
  claimed-view k =
      view-update_order k d.order_id _ (λ o. awaits_delivery o.status) (delivering_row env)
        (λ o. refl)
      ∙ ap (on d.order_id k take_order) (
          view-update_attempt c.keyed k d.order_id d (λ x. is_claimable x.status)
            (processing_row env) (λ x. refl) found)
      ∙ on-on d.order_id k take_attempt take_order (view k db)

  claimed-Tabled : Tabled claimed
  unfolding claimed mark_delivering delivering_row processing_row
  claimed-Tabled =
      update_order-Tabled
        (update_attempts-Tabled c.keyed (is_claimable_row d.id) (processing_row env) (λ x. refl)
          (λ x. refl))
        d.order_id _ (delivering_row env) (λ o. refl)

  claimed-Coherent : Coherent (remember d.order_id d.id known) claimed
  claimed-Coherent =
      Coherent-on d.order_id (λ v. take_order (take_attempt v)) c claimed-Tabled claimed-view
        (subst (λ n. Coupled n (take_order (take_attempt (view d.order_id db)))) (sym here)
          (claimed-Coupled env d (known d.order_id) (view d.order_id db) found claimable
            (c.coupled d.order_id)))
        (λ k other. rw other)
    where
      here :
          remember d.order_id d.id known d.order_id
          ≡ record (known d.order_id) { attempt = some d.id }
      here = ground arith

  claimed-processing :
      option_any (λ x. is_processing x.status) (attempt_of d.order_id claimed) ≡ true
  unfolding processing_row
  claimed-processing =
      let e = ap (λ v. v.attempt) (claimed-view d.order_id) in ground (arith, e, found, claimable)

-- `ClaimNextJob` keeps the database coherent with what is remembered of it and with the job that it
-- returns: the job is the attempt of its order. The rows that it skips are any.
pub claim_next_job-Coherent :
    (locked : ℕ → Bool) (env : Env) (known : ℕ → Memory) (db : Db)
    → Coherent known db
    → OnOk (λ job db'. Coherent (remember_job job known) db') (claim_next_job locked env db)
unfolding claim_next_job claim_if_found claim_attempt mark_processing claimed is_candidate
    attempt_of
claim_next_job-Coherent locked env known db c = go (next_candidate locked env.now db) refl
  where
    unpack :
        (d : DeliveryAttempt)
        → next_candidate locked env.now db ≡ some d
        → (attempt_of d.order_id db ≡ some d) × (is_claimable d.status ≡ true)
    unpack d e = (
      find_where-Memᴰ (λ x. x.order_id) d db.delivery_attempts c.keyed.attempt_orders
          (next_candidate-Memᴰ locked env.now db d e).0,
      ground (arith, (next_candidate-Memᴰ locked env.now db d e).1),
    )

    go :
        (r : Option DeliveryAttempt)
        → next_candidate locked env.now db ≡ r
        → OnOk (λ job db'. Coherent (remember_job job known) db') (claim_if_found env r db)
    go none e = OnOk-ok c
    go (some d) e = ground (arith, claimed-Coherent env d known db c (unpack d e).0 (unpack d e).1)

-- The attempt of a job is processing right after it was claimed.
abbrev pub is_held : Db → Option Job → Bool
is_held db none = true
is_held db (some job) = option_any (λ d. is_processing d.status) (attempt_of job.order_id db)

pub claim_next_job-held :
    (locked : ℕ → Bool) (env : Env) {known : ℕ → Memory} (db : Db)
    → Coherent known db
    → OnOk (λ r db'. is_held db' r ≡ true) (claim_next_job locked env db)
unfolding claim_next_job claim_if_found claim_attempt mark_processing claimed is_candidate
    attempt_of
claim_next_job-held locked env {known} db c = go (next_candidate locked env.now db) refl
  where
    go :
        (r : Option DeliveryAttempt)
        → next_candidate locked env.now db ≡ r
        → OnOk (λ r db'. is_held db' r ≡ true) (claim_if_found env r db)
    go none e = OnOk-ok refl
    go (some d) e =
        let (m, k) = next_candidate-Memᴰ locked env.now db d e in
        let found : attempt_of d.order_id db ≡ some d =
          find_where-Memᴰ (λ x. x.order_id) d db.delivery_attempts c.keyed.attempt_orders m in
        ground (arith, claimed-processing env d known db c found (ground (arith, k)))

-- Another attempt of the job's order is remembered.
abbrev pub misremembered : (ℕ → Memory) → Option Job → Bool
misremembered known r =
    option_any (λ job. option_any (λ i. not (i == job.delivery_id)) (known job.order_id).attempt) r

claim_attempt-remembered :
    (env : Env) (known : ℕ → Memory) (d : DeliveryAttempt) (sku : String) (db : Db)
    → option_any (λ i. not (i == d.id)) (known d.order_id).attempt ≡ false
    → OnOk (λ r db'. misremembered known r ≡ false) (claim_attempt env d sku db)
unfolding claim_attempt
claim_attempt-remembered env known d sku db h =
    OnOk-bind (λ u db'. Unit {0}) (λ r db'. misremembered known r ≡ false)
      (mark_processing env d.id) _ db (OnOk-any _) (λ u db' _. record { holds = h })

-- A job that is claimed again is the attempt that its order had all along.
pub claim_next_job-remembered :
    (locked : ℕ → Bool) (env : Env) (known : ℕ → Memory) (db : Db)
    → Coherent known db
    → OnOk (λ r db'. misremembered known r ≡ false) (claim_next_job locked env db)
unfolding claim_next_job claim_if_found attempt_of
claim_next_job-remembered locked env known db c = go (next_candidate locked env.now db) refl
  where
    same_id :
        (d : DeliveryAttempt)
        → next_candidate locked env.now db ≡ some d
        → option_any (λ i. not (i == d.id)) (known d.order_id).attempt ≡ false
    same_id d e = ground (
      arith,
      c.coupled d.order_id,
      find_where-Memᴰ (λ x. x.order_id) d db.delivery_attempts c.keyed.attempt_orders
          (next_candidate-Memᴰ locked env.now db d e).0,
    )

    go :
        (r : Option DeliveryAttempt)
        → next_candidate locked env.now db ≡ r
        → OnOk (λ r db'. misremembered known r ≡ false) (claim_if_found env r db)
    go none e = OnOk-ok refl
    go (some d) e = claim_attempt-remembered env known d _ db (same_id d e)

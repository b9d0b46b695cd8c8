-- ===== src/Coherence/Queue.antt =====
-- Which job `ClaimNextJob` gives: the first in the queue's order of those that can be claimed, and
-- none only where there is none.
use mathlib.Core.List.{Memᴰ}
use digital_store.Prelude.Rows.{select_where-none_left, any_where-Memᴰ}
use digital_store.Coherence.Commits.{if_true}
use digital_store.Prelude.{
  ◌+◌, ℕ, ◌==◌, Bool, true, false, not, ◌&&◌, ◌||◌, none, some, ◌≡◌, refl, sym, ap, ◌∙◌, arith,
  any_where, count_where, select_where, Option-cases, inl, inr, String,
}
use digital_store.Prelude.Rows.{find_where-Memᴰ, count_where-UniqueBy}
use digital_store.Prelude.Sorting.{first-sort_by, no_first, any_where-select_where}
use digital_store.Model.{Db, DeliveryAttempt, Env, ok, attempt_of, update_attempts, is_claimable}
use digital_store.Delivery.Repository.Claim.{
  Job, is_candidate, claimed_before, candidates, next_candidate, is_claimable_row, mark_processing,
  mark_delivering, processing_row, claim_attempt, claim_if_found, claim_next_job, sku_of,
}
use digital_store.Coherence.Invariant.{Memory, Coherent}
use digital_store.Coherence.Jobs.{next_candidate-Memᴰ}

claimed_before_total : (a b : DeliveryAttempt) → (claimed_before a b || claimed_before b a) ≡ true
unfolding claimed_before
claimed_before_total a b = ground arith

claimed_before_trans :
    (a b c : DeliveryAttempt)
    → claimed_before a b ≡ true
    → claimed_before b c ≡ true
    → claimed_before a c ≡ true
unfolding claimed_before
claimed_before_trans a b c h k = ground arith

module _ (locked : ℕ → Bool) (now : ℕ) (db : Db) where
  next_candidate-none :
      next_candidate locked now db ≡ none
      → any_where (is_candidate locked now db) db.delivery_attempts ≡ false
  unfolding next_candidate candidates
  next_candidate-none h = select_where-none_left (is_candidate locked now db) db.delivery_attempts (
      no_first claimed_before claimed_before_total claimed_before_trans
        (select_where (is_candidate locked now db) db.delivery_attempts) h)

  -- No row that can be claimed comes before the one that the queue gives.
  next_candidate-first :
      (d : DeliveryAttempt)
      → next_candidate locked now db ≡ some d
      → any_where
          (λ x. is_candidate locked now db x && not (claimed_before d x))
          db.delivery_attempts
        ≡ false
  unfolding next_candidate candidates
  next_candidate-first d h =
      sym (
        any_where-select_where (is_candidate locked now db) (λ x. not (claimed_before d x))
          db.delivery_attempts)
      ∙ first-sort_by claimed_before claimed_before_total claimed_before_trans
          (select_where (is_candidate locked now db) db.delivery_attempts) d h

abbrev job_of : Env → DeliveryAttempt → String → Job
job_of env d sku = record {
  delivery_id = d.id;
  order_id = d.order_id;
  request_id = d.request_id;
  sku = sku;
  attempts = d.attempts + 1;
}

abbrev claimed_by : Env → DeliveryAttempt → Db → Db
claimed_by env d db =
    mark_delivering env d.order_id (update_attempts (is_claimable_row d.id) (processing_row env) db)

-- The update of a row that can be claimed reaches it.
mark_processing-held :
    (env : Env) {known : ℕ → Memory} {db : Db} (c : Coherent known db) (d : DeliveryAttempt)
    → Memᴰ d db.delivery_attempts
    → is_claimable d.status ≡ true
    → mark_processing env d.id db
      ≡ ok (tt, update_attempts (is_claimable_row d.id) (processing_row env) db)
unfolding mark_processing
mark_processing-held env {db = db} c d m k =
    if_true (count_where (is_claimable_row d.id) db.delivery_attempts == 1) _ _ (
      ground (
        arith,
        k,
        find_where-Memᴰ (λ x. x.id) d db.delivery_attempts c.keyed.attempt_ids m,
        count_where-UniqueBy (λ x. x.id) d.id (λ x. is_claimable x.status) db.delivery_attempts
            c.keyed.attempt_ids,
      ))

claim_attempt-held :
    (env : Env) {known : ℕ → Memory} {db : Db} (c : Coherent known db) (d : DeliveryAttempt)
    (sku : String)
    → Memᴰ d db.delivery_attempts
    → is_claimable d.status ≡ true
    → claim_attempt env d sku db ≡ ok (some (job_of env d sku), claimed_by env d db)
unfolding claim_attempt
claim_attempt-held env c d sku m k = ground (arith, mark_processing-held env c d m k)

candidate-claimable :
    (locked : ℕ → Bool) (now : ℕ) (db : Db) (d : DeliveryAttempt)
    → is_candidate locked now db d ≡ true
    → is_claimable d.status ≡ true
unfolding is_candidate
candidate-claimable locked now db d h = ground (arith, h)

-- `ClaimNextJob` of a database where no row can be claimed finds no job and changes nothing.
pub claim_next_job-empty :
    (locked : ℕ → Bool) (env : Env) (db : Db)
    → any_where (is_candidate locked env.now db) db.delivery_attempts ≡ false
    → claim_next_job locked env db ≡ ok (none, db)
unfolding claim_next_job claim_if_found
claim_next_job-empty locked env db h = elim (Option-cases (next_candidate locked env.now db)) [
  | inl e ↦ ground (arith, e)
  | inr (d, e) ↦
      let (m, k) = next_candidate-Memᴰ locked env.now db d e in
      elim (let never : ⊥ =
          ground (
            arith,
            h,
            any_where-Memᴰ (is_candidate locked env.now db) d db.delivery_attempts m k,
          ) in
        never) [ ]
]

-- Where a row of a coherent database can be claimed, `ClaimNextJob` commits with a job: the attempt
-- of its order, which can be claimed, and no row that can be claimed comes before it in the queue.
pub claim_next_job-first :
    {known : ℕ → Memory} (locked : ℕ → Bool) (env : Env) (db : Db)
    → Coherent known db
    → any_where (is_candidate locked env.now db) db.delivery_attempts ≡ true
    → (job : Job) × (db' : Db) × (d : DeliveryAttempt) × (claim_next_job locked env db
        ≡ ok (some job, db'))
      × (attempt_of job.order_id db ≡ some d)
      × (d.id ≡ job.delivery_id)
      × (is_candidate locked env.now db d ≡ true)
      × (any_where
            (λ x. is_candidate locked env.now db x && not (claimed_before d x))
            db.delivery_attempts
          ≡ false)
unfolding claim_next_job claim_if_found attempt_of
claim_next_job-first locked env db c h = elim (Option-cases (next_candidate locked env.now db)) [
  | inl e ↦
      elim (let never : ⊥ = ground (arith, h, next_candidate-none locked env.now db e) in never) [ ]
  | inr (d, e) ↦
      let (m, k) = next_candidate-Memᴰ locked env.now db d e in
      (
        job_of env d (sku_of d.order_id db),
        claimed_by env d db,
        d,
        ap (λ r. claim_if_found env r db) e
            ∙ claim_attempt-held env c d (sku_of d.order_id db) m
                (candidate-claimable locked env.now db d k),
        found d m,
        refl,
        k,
        next_candidate-first locked env.now db d e,
      )
]
  where
    found : (d : DeliveryAttempt) → Memᴰ d db.delivery_attempts → attempt_of d.order_id db ≡ some d
    found d m = find_where-Memᴰ (λ x. x.order_id) d db.delivery_attempts c.keyed.attempt_orders m

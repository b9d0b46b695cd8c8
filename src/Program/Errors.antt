-- ===== src/Program/Errors.antt =====
-- No claim and no report of a job has the error of a context that is done, unless it is.
use digital_store.Prelude.{
  ℕ, Bool, true, false, ◌&&◌, Option, none, some, ◌≡◌, refl, String, if◌then◌else◌, ◌==◌,
  count_where,
}
use digital_store.Model.{
  pure, not_claimed, not_processing, not_delivering, is_delivering, update_attempts, update_order,
  exec, ◌>>◌, Db, Env, Result, ok, err, Tx, attempt_by_id, DeliveryAttempt, is_issued,
}
use digital_store.Delivery.Repository.Claim.{
  Job, claim_next_job, claim_if_found, claim_attempt, mark_processing, processing_row,
  next_candidate, is_claimable_row,
}
use digital_store.Delivery.Repository.Report.{
  mark_delivered, mark_out_of_stock, mark_failed, mark_recoverable_failure, deliver_if_found,
  deliver, update_processing, mark_order_delivered, is_processing_row, delivered_order,
}
use digital_store.Delivery.Service.{Service, Outcome, complete, all_out_of_stock, fail, report}
use digital_store.Delivery.Worker.{is_canceled}

-- The error of a call is that of a context which is done.
abbrev pub canceled : {A : Type 0} → Result A → Bool
canceled (ok a) = false
canceled (err e) = is_canceled e

module _ {A : Type 0} where
  if-canceled :
      (b : Bool) (r q : Result A)
      → canceled r ≡ false
      → canceled q ≡ false
      → canceled (if b then r else q) ≡ false
  if-canceled true r q hr hq = hr
  if-canceled false r q hr hq = hq

  choose-canceled :
      (b : Bool) (m k : Tx A) (db : Db)
      → canceled (m db) ≡ false
      → canceled (k db) ≡ false
      → canceled ((if b then m else k) db) ≡ false
  choose-canceled true m k db hm hk = hm
  choose-canceled false m k db hm hk = hk

  then-canceled :
      (m : Tx (Unit {0})) (k : Tx A) (db : Db)
      → canceled (m db) ≡ false
      → ((db : Db) → canceled (k db) ≡ false)
      → canceled ((m >> k) db) ≡ false
  then-canceled m k db h q = go (m db) h
    where
      go :
          (r : Result (Unit {0} × Db))
          → canceled r ≡ false
          → canceled (elim r as (λ r. Result (A × Db)) [ ok x ↦ k x.1 | err e ↦ err e ]) ≡ false
      go (ok (a, db)) h = q db
      go (err e) h = h

mark_processing-canceled :
    (env : Env) (id : ℕ) (db : Db) → canceled (mark_processing env id db) ≡ false
unfolding mark_processing
mark_processing-canceled env id db =
    if-canceled (count_where (is_claimable_row id) db.delivery_attempts == 1)
      (exec (update_attempts (is_claimable_row id) (processing_row env)) db) (err not_claimed) refl
      refl

claim_if_found-canceled :
    (env : Env) (d : Option DeliveryAttempt) (db : Db) → canceled (claim_if_found env d db) ≡ false
unfolding claim_if_found claim_attempt
claim_if_found-canceled env none db = refl
claim_if_found-canceled env (some d) db =
    then-canceled (mark_processing env d.id) _ db (mark_processing-canceled env d.id db)
      (λ db. refl)

update_processing-canceled :
    (id : ℕ) (f : DeliveryAttempt → DeliveryAttempt) (db : Db)
    → canceled (update_processing id f db) ≡ false
unfolding update_processing
update_processing-canceled id f db =
    if-canceled (count_where (is_processing_row id) db.delivery_attempts == 1)
      (exec (update_attempts (is_processing_row id) f) db) (err not_processing) refl refl

mark_order_delivered-canceled :
    (env : Env) (id : ℕ) (db : Db) → canceled (mark_order_delivered env id db) ≡ false
unfolding mark_order_delivered
mark_order_delivered-canceled env id db =
    if-canceled (count_where (λ o. (o.id == id) && is_delivering o.status) db.orders == 1)
      (exec (update_order id (λ o. is_delivering o.status) (delivered_order env)) db)
      (err not_delivering) refl refl

pub claim_next_job-canceled :
    (locked : ℕ → Bool) (env : Env) (db : Db) → canceled (claim_next_job locked env db) ≡ false
unfolding claim_next_job
claim_next_job-canceled locked env db =
    claim_if_found-canceled env (next_candidate locked env.now db) db

deliver-canceled :
    (env : Env) (job : Job) (provider code : String) (db : Db)
    → canceled (deliver env job provider code db) ≡ false
unfolding deliver
deliver-canceled env job provider code db =
    then-canceled (update_processing job.delivery_id _) _ db
      (update_processing-canceled job.delivery_id _ db)
      (λ db.
        then-canceled (mark_order_delivered env job.order_id) _ db
          (mark_order_delivered-canceled env job.order_id db) (λ db. refl))

deliver_if_found-canceled :
    (env : Env) (job : Job) (provider code : String) (d : Option DeliveryAttempt) (db : Db)
    → canceled (deliver_if_found env job provider code d db) ≡ false
unfolding deliver_if_found
deliver_if_found-canceled env job provider code none db = refl
deliver_if_found-canceled env job provider code (some d) db =
    choose-canceled (is_issued d.status) (pure tt) (deliver env job provider code) db refl
      (deliver-canceled env job provider code db)

pub report-canceled :
    (env : Env) (service : Service) (job : Job) (o : Outcome) (db : Db)
    → canceled (report env service job o db) ≡ false
unfolding report mark_delivered mark_out_of_stock mark_failed mark_recoverable_failure
report-canceled env service job (complete provider code) db =
    deliver_if_found-canceled env job provider code (attempt_by_id job.delivery_id db) db
report-canceled env service job (all_out_of_stock message) db =
    then-canceled (update_processing job.delivery_id _) _ db
      (update_processing-canceled job.delivery_id _ db) (λ db. refl)
report-canceled env service job (fail message) db =
    then-canceled (update_processing job.delivery_id _) _ db
      (update_processing-canceled job.delivery_id _ db) (λ db. refl)

-- ===== src/Coherence/Processing.antt =====
-- A delivery, whatever the providers answer, keeps the database coherent.
use digital_store.Prelude.{true, false, ℕ, Bool, some, ◌≡◌}
use digital_store.Model.{Db, Env, Platform}
use digital_store.Delivery.Repository.Claim.{Job}
use digital_store.Delivery.Service.{
  Service, Outcome, complete, all_out_of_stock, fail, report, decide, process,
}
use digital_store.Coherence.Invariant.{Memory, Coherent}
use digital_store.Coherence.Keeps.{OnOk, OnOk-err}
use digital_store.Coherence.Reports.{
  mark_delivered-Coherent, mark_out_of_stock-Coherent, mark_failed-Coherent,
}

module _ (env : Env) {known : ℕ → Memory} {db : Db} (c : Coherent known db) (job : Job)
    (remembered : (known job.order_id).attempt ≡ some job.delivery_id) where
  pub report-Coherent :
      (s : Service) (o : Outcome) → OnOk (λ u db'. Coherent known db') (report env s job o db)
  unfolding report
  report-Coherent s (complete provider code) =
      mark_delivered-Coherent env c job remembered provider code
  report-Coherent s (all_out_of_stock message) =
      mark_out_of_stock-Coherent env c job remembered message s.retry_delay
  report-Coherent s (fail message) = mark_failed-Coherent env c job remembered message s.retry_delay

  -- `Process` of a job that the worker remembers keeps the database coherent, whatever the
  -- providers answer, however late the report comes and whether or not its context is done.
  pub process-Coherent :
      (plat : Platform) (s : Service) (a_cancelled b_cancelled : ℕ → Bool) (done : Bool)
      → OnOk (λ u db'. Coherent known db') (process plat env s job a_cancelled b_cancelled done db)
  unfolding process
  process-Coherent plat s a_cancelled b_cancelled true = OnOk-err
  process-Coherent plat s a_cancelled b_cancelled false =
      report-Coherent s (decide plat s job a_cancelled b_cancelled).outcome

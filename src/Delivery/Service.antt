-- ===== src/Delivery/Service.antt =====
-- internal/delivery/service.go: a delivery tries provider A, and falls back to provider B where A
-- has certainly not issued a code. Logging is left out.
use Prim.Native.String.{◌++◌ as append}
use digital_store.Prelude.{
  ℕ, suc, zero, ◌+◌, ltb, ◌==◌, if◌then◌else◌, Bool, not, ◌&&◌, ◌||◌, String, Option, none, some,
  List, [], ◌∷◌,
}
use digital_store.Model.{raise, context_canceled, Tx, Env, Platform}
use digital_store.Delivery.Repository.Claim.{Job}
use digital_store.Delivery.Repository.Report.{mark_delivered, mark_out_of_stock, mark_failed}
use digital_store.Delivery.Provider.{
  ErrorKind, ProviderError, is_unavailable, is_timeout, is_out_of_stock, is_invalid, IssueRequest,
  IssueResponse, empty_response, Answer, issued, refused, Provider,
}
pub mod Calls
pub mod Fallback
pub mod Codes

pub record Service : Type 0 where
  pub provider_a : Provider
  pub provider_b : Provider
  pub retry_count : ℕ
  pub retry_delay : ℕ

-- `NewService`: at least one try. The retry count of the configuration is an int that can be
-- negative; every count below 1 acts as 0 does here.
unfoldable pub new_service : Provider → Provider → ℕ → ℕ → Service
new_service a b retry_count retry_delay = record {
  provider_a = a;
  provider_b = b;
  retry_count = if ltb retry_count 1 then 1 else retry_count;
  retry_delay = retry_delay;
}

-- What `issueWithRetry` returns, with the answers that the provider gave, in order.
pub record Issuing : Type 0 where
  pub answer : Answer
  pub answers : List Answer

-- The answer that ends the loop without another call.
abbrev pub stop : Answer → Issuing
stop a = record { answer = a; answers = a ∷ [] }

-- `ctx.Err()` after the call that gave `a`
abbrev pub stop_canceled : Answer → Issuing
stop_canceled a = record {
  answer = refused (record { kind = ErrorKind.canceled; text = "context canceled" });
  answers = a ∷ [];
}

abbrev pub called : Answer → Issuing → Issuing
called a rest = record { answer = rest.answer; answers = a ∷ rest.answers }

-- `return IssueResponse{}, lastErr`, where a nil error is a success
abbrev pub last_error : Option ProviderError → Answer
last_error none = issued empty_response
last_error (some e) = refused e

-- One turn of the loop: `rest` is the loop after the wait.
unfoldable pub turn : Answer → (is_last cancelled : Bool) → (ProviderError → Issuing) → Issuing
turn (issued response) is_last cancelled rest = stop (issued response)
turn (refused e) is_last cancelled rest =
    if is_out_of_stock e.kind || is_invalid e.kind
    then stop (refused e)
    else if is_last
    then stop (refused e)
    else if cancelled
    then stop_canceled (refused e)
    else called (refused e) (rest e)

-- The loop over `attempt`, with `left` turns left; `cancelled n` says that the context is done
-- while the loop waits after attempt n.
unfoldable pub issue_from :
    Provider → IssueRequest → (ℕ → Bool) → ℕ → (left attempt : ℕ) → Option ProviderError → Issuing
issue_from p request cancelled retry_count zero attempt last = record {
  answer = last_error last;
  answers = [];
}
issue_from p request cancelled retry_count (suc left) attempt last =
    turn (p.issue request attempt) (attempt == retry_count) (cancelled attempt)
      λ e. issue_from p request cancelled retry_count left (attempt + 1) (some e)

-- `issueWithRetry`
unfoldable pub issue_with_retry : Service → Provider → IssueRequest → (ℕ → Bool) → Issuing
issue_with_retry s p request cancelled =
    issue_from p request cancelled s.retry_count s.retry_count 1 none

-- What `Process` reports of the job.
pub data Outcome : Type 0 where
  complete : String → String → Outcome
  all_out_of_stock fail : String → Outcome

-- The outcome, with the answers of the two providers.
pub record Processed : Type 0 where
  pub outcome : Outcome
  pub a_answers : List Answer
  pub b_answers : List Answer

abbrev pub timeout_message : Provider → String
timeout_message p = append "provider " (append p.name " timeout with unknown result")

abbrev pub both_failed : ProviderError → ProviderError → String
both_failed a b = append "providers failed: A=" (append a.text (append "; B=" b.text))

-- After the fallback to B.
unfoldable pub fallback_outcome : Service → ProviderError → Answer → Outcome
fallback_outcome s a (issued response) = complete s.provider_b.name response.code
fallback_outcome s a (refused b) =
    if is_out_of_stock b.kind && is_out_of_stock a.kind
    then all_out_of_stock "all providers are out of stock"
    else if is_timeout b.kind
    then fail (timeout_message s.provider_b)
    else fail (both_failed a b)

abbrev pub settled : Issuing → Outcome → Processed
settled a outcome = record { outcome = outcome; a_answers = a.answers; b_answers = [] }

abbrev pub fell_back : Service → Issuing → ProviderError → Issuing → Processed
fell_back s a e b = record {
  outcome = fallback_outcome s e b.answer;
  a_answers = a.answers;
  b_answers = b.answers;
}

-- After the answer of A; `b` is the whole call of B.
unfoldable pub settle : Service → Issuing → Answer → Issuing → Processed
settle s a (issued response) b = settled a (complete s.provider_a.name response.code)
settle s a (refused e) b =
    if is_timeout e.kind
    then settled a (fail (timeout_message s.provider_a))
    else if not (is_unavailable e.kind) && not (is_out_of_stock e.kind)
    then settled a (fail e.text)
    else fell_back s a e b

unfoldable pub request_of : Platform → Job → IssueRequest
request_of plat job = record {
  request_id = job.request_id;
  sku = job.sku;
  order_id = plat.show job.order_id;
}

-- The calls of `Process`; `a_cancelled` and `b_cancelled` are the contexts during the two loops.
unfoldable pub decide : Platform → Service → Job → (a_cancelled b_cancelled : ℕ → Bool) → Processed
decide plat s job a_cancelled b_cancelled =
    let request = request_of plat job in
    let a = issue_with_retry s s.provider_a request a_cancelled in
    settle s a a.answer (issue_with_retry s s.provider_b request b_cancelled)

-- `complete`, `outOfStock` and `fail`
unfoldable pub report : Env → Service → Job → Outcome → Tx (Unit {0})
report env s job (complete provider code) = mark_delivered env job provider code
report env s job (all_out_of_stock message) = mark_out_of_stock env job message s.retry_delay
report env s job (fail message) = mark_failed env job message s.retry_delay

-- `Process`; `done` says that the context is done when the report begins its transaction, which it
-- is after a wait that was cancelled.
unfoldable pub process :
    Platform
    → Env
    → Service
    → Job
    → (a_cancelled b_cancelled : ℕ → Bool) → (done : Bool) → Tx (Unit {0})
process plat env s job a_cancelled b_cancelled done =
    if done
    then raise context_canceled
    else report env s job (decide plat s job a_cancelled b_cancelled).outcome

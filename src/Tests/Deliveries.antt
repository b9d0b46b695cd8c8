-- ===== src/Tests/Deliveries.antt =====
-- Each result about a delivery, applied to small providers.
use digital_store.Prelude.{
  ℕ, String, ◌==◌, ◌≤◌, length, some, [], Bool, false, not, refl, ◌≡◌, arith, ◌⊎◌, if◌then◌else◌,
}
use digital_store.Delivery.Provider.{
  ErrorKind, ProviderError, IssueRequest, IssueResponse, issued, refused, Provider, Reply, received,
  decoded, timed_out, http_provider, http_issue, read_body, read_response, failure,
}
use digital_store.Delivery.Service.{
  Service, new_service, issue_with_retry, issue_from, turn, settle, fallback_outcome, request_of,
  decide, process,
}
use digital_store.Delivery.Service.Calls.{asked, last_answer, allows_fallback, is_empty}
use digital_store.Delivery.Service.Fallback.{
  service, issue_with_retry-answers, decide-fallback, decide-complete, decide-forgets_timeout,
}
use digital_store.Delivery.Service.Codes.{GaveCode, decide-http_code}
use digital_store.Coherence.Invariant.{Coherent}
use digital_store.Coherence.Keeps.{OnOk}
use digital_store.Coherence.Processing.{process-Coherent}
use digital_store.Tests.States.{holding_7, claimed-Coherent_7}
use digital_store.Tests.Shop.{at_time, claimed_db, platform, job_7}

abbrev pub down : ProviderError
down = record { kind = ErrorKind.provider_unavailable; text = "down" }

abbrev pub timeout : ProviderError
timeout = record { kind = ErrorKind.provider_timeout; text = "timeout" }

abbrev pub sold_out : ProviderError
sold_out = record { kind = ErrorKind.out_of_stock; text = "sold out" }

abbrev pub key : IssueResponse
key = record { status = "ok"; request_id = "req-uuuuuuu-1"; code = "KEY"; reason = "" }

-- It times out, and has nothing left at the second call.
abbrev pub slow_a : Provider
slow_a = record {
  name = "A";
  issue = λ request n. if n == 1 then refused timeout else refused sold_out;
}

-- It is down at the first call.
abbrev pub good_b : Provider
good_b = record { name = "B"; issue = λ request n. if n == 1 then refused down else issued key }

abbrev pub never : ℕ → Bool
never n = false

abbrev pub s2 : Service
s2 = service slow_a good_b 2 60

issue_with_retry-answers_example :
    (is_empty (issue_with_retry s2 good_b (request_of platform job_7) never).answers ≡ false)
    × (length (issue_with_retry s2 good_b (request_of platform job_7) never).answers
        ≤ s2.retry_count)
    × ((issue_with_retry s2 good_b (request_of platform job_7) never).answers
        ≡ asked good_b
            (request_of platform job_7)
            1
            (length (issue_with_retry s2 good_b (request_of platform job_7) never).answers))
issue_with_retry-answers_example =
    issue_with_retry-answers slow_a good_b 2 60 good_b (request_of platform job_7) never

decide-fallback_example :
    is_empty (decide platform s2 job_7 never never).b_answers
    ≡ not (allows_fallback (issue_with_retry s2 slow_a (request_of platform job_7) never).answer)
decide-fallback_example = decide-fallback slow_a good_b 2 60 platform job_7 never never

decide-complete_example :
    (r : IssueResponse) × (r.code ≡ "KEY")
    × ((good_b.name ≡ slow_a.name)
          × (last_answer (decide platform s2 job_7 never never).a_answers ≡ some (issued r))
          × ((decide platform s2 job_7 never never).b_answers ≡ [])
        ⊎ (good_b.name ≡ good_b.name)
          × (last_answer (decide platform s2 job_7 never never).b_answers ≡ some (issued r)))
unfolding decide settle fallback_outcome issue_with_retry issue_from turn new_service
decide-complete_example =
    decide-complete slow_a good_b 2 60 platform job_7 never never "B" "KEY" refl

decide-forgets_timeout_example : is_empty (decide platform s2 job_7 never never).b_answers ≡ false
decide-forgets_timeout_example =
    decide-forgets_timeout slow_a good_b 2 60 platform job_7 never never timeout sold_out
      (ground arith) refl refl refl refl refl

abbrev pub replies : IssueRequest → ℕ → Reply
replies request n = if n == 1 then timed_out else received 200 (decoded key)

abbrev name_a : String
name_a = "A"

abbrev name_b : String
name_b = "B"

abbrev http_3 : Service
http_3 = service (http_provider "A" replies) (http_provider "B" replies) 3 60

decide-http_code_example :
    ((name_a ≡ name_a)
      × GaveCode replies
          (request_of platform job_7)
          (decide platform http_3 job_7 never never).a_answers
          "KEY")
    ⊎ ((name_a ≡ name_b)
        × GaveCode replies
            (request_of platform job_7)
            (decide platform http_3 job_7 never never).b_answers
            "KEY")
unfolding decide settle fallback_outcome issue_with_retry issue_from turn new_service http_provider
    http_issue read_body read_response failure request_of
decide-http_code_example =
    decide-http_code replies replies "A" "B" 3 60 platform job_7 never never "A" "KEY" refl

process-Coherent_example :
    OnOk
      (λ u db'. Coherent holding_7 db')
      (process platform (at_time 40) s2 job_7 never never false claimed_db)
process-Coherent_example =
    process-Coherent (at_time 40) claimed-Coherent_7 job_7 refl platform s2 never never false

-- ===== src/Delivery/Service/Codes.antt =====
-- The codes that a delivery over HTTP can report.
use digital_store.Prelude.{
  sym, length, ap, ℕ, suc, zero, ◌+◌, ◌-◌, str_eq, subst, refl, List, ◌⊎◌, false, Bool, true, not,
  ◌&&◌, String, some, ◌≡◌, ◌∙◌, arith, inl, inr,
}
use digital_store.Model.{Platform}
use digital_store.Delivery.Repository.Claim.{Job}
use digital_store.Delivery.Provider.{
  http_provider, empty_response, IssueRequest, IssueResponse, Answer, issued, Provider, Reply,
  no_body, malformed, decoded, received, not_sent, timed_out, transport_error, unread, http_issue,
  read_body, read_response, failure,
}
use digital_store.Delivery.Service.{
  Service, new_service, issue_with_retry, complete, settle, fallback_outcome, request_of, decide,
}
use digital_store.Delivery.Service.Calls.{asked, last_answer, Answer-cases}
use digital_store.Delivery.Service.Fallback.{
  service, issue_with_retry-answers, issue_with_retry-last,
}

-- What `HTTPProvider.Issue` accepts as a code.
abbrev pub accepts : IssueRequest → IssueResponse → Bool
accepts request r =
    str_eq r.status "ok" && str_eq r.request_id request.request_id && not (str_eq r.code "")

read_response-issued :
    (name : String) (request : IssueRequest) (status : ℕ) (x r : IssueResponse)
    → read_response name request status x ≡ issued r
    → (status ≡ 200) × (x ≡ r) × (accepts request r ≡ true)
unfolding read_response failure
read_response-issued name request status x r h = ground arith

-- Only a reply with status 200 and a response that is accepted becomes a code.
http_issue-issued :
    (name : String) (request : IssueRequest) (reply : Reply) (r : IssueResponse)
    → http_issue name request reply ≡ issued r
    → (reply ≡ received 200 (decoded r)) × (accepts request r ≡ true)
unfolding http_issue read_body failure
http_issue-issued name request (not_sent e) r h = ground arith
http_issue-issued name request timed_out r h = ground arith
http_issue-issued name request (transport_error e) r h = ground arith
http_issue-issued name request (unread e) r h = ground arith
http_issue-issued name request (received status no_body) r h =
    let (s, x, a) = read_response-issued name request status empty_response r h in
    let unread : accepts request empty_response ≡ true =
      subst (λ y. accepts request y ≡ true) (sym x) a in
    elim (let never : ⊥ = ground (arith, unread) in never) [ ]
http_issue-issued name request (received status (malformed e)) r h = ground arith
http_issue-issued name request (received status (decoded x)) r h =
    let (s, same, a) = read_response-issued name request status x r h in
    (λ i. received (s i) (decoded (same i)), a)

-- The last answer of calls in a row is the answer to the last of them.
last_answer-asked :
    (p : Provider) (request : IssueRequest) (k n : ℕ) (x : Answer)
    → last_answer (asked p request k n) ≡ some x
    → p.issue request (k + n - 1) ≡ x
unfolding asked last_answer
last_answer-asked p request k zero x h = elim (let never : ⊥ = ground arith in never) [ ]
last_answer-asked p request k (suc zero) x h =
    ap (p.issue request) (let q : k + 1 - 1 ≡ k = omega arith in q) ∙ ground arith
last_answer-asked p request k (suc (suc n)) x h =
    ap (p.issue request) (let q : k + suc (suc n) - 1 ≡ k + 1 + suc n - 1 = omega arith in q)
    ∙ last_answer-asked p request (k + 1) (suc n) x h

-- The reply to the last of the calls has status 200 and a response with status ok, the request id of
-- the request and the code, which is not empty.
abbrev pub GaveCode : (IssueRequest → ℕ → Reply) → IssueRequest → List Answer → String → Type 0
GaveCode network request answers code =
    (r : IssueResponse) × (network request (length answers) ≡ received 200 (decoded r))
    × (str_eq r.status "ok" ≡ true)
    × (str_eq r.request_id request.request_id ≡ true)
    × (str_eq r.code "" ≡ false)
    × (r.code ≡ code)

module _ (network_a network_b : IssueRequest → ℕ → Reply) (name_a name_b : String)
    (retries delay : ℕ) where
  abbrev http_service : Service
  http_service =
      service (http_provider name_a network_a) (http_provider name_b network_b) retries delay

  called-GaveCode :
      (name : String) (network : IssueRequest → ℕ → Reply) (request : IssueRequest)
      (cancelled : ℕ → Bool) (r : IssueResponse)
      → (issue_with_retry http_service (http_provider name network) request cancelled).answer
        ≡ issued r
      → GaveCode network request
          (issue_with_retry http_service (http_provider name network) request cancelled).answers
          r.code
  unfolding http_provider
  called-GaveCode name network request cancelled r h =
      let a = http_provider name_a network_a in
      let b = http_provider name_b network_b in
      let p = http_provider name network in
      let calls = length (issue_with_retry http_service p request cancelled).answers in
      let last = issue_with_retry-last a b retries delay p request cancelled r h in
      let all = (issue_with_retry-answers a b retries delay p request cancelled).2 in
      let asked_last =
        last_answer-asked p request 1 calls (issued r) (ap last_answer (sym all) ∙ last) in
      let here : p.issue request calls ≡ issued r =
        ap (p.issue request) (let q : calls ≡ 1 + calls - 1 = omega arith in q) ∙ asked_last in
      let (reply, ok) = http_issue-issued name request (network request calls) r here in
      (r, reply, ground (arith, ok), ground (arith, ok), ground (arith, ok), refl)

  -- A delivery over HTTP that is reported complete names the provider whose last call was answered
  -- with the code: that reply has status 200 and a response whose status is ok, whose request id is the
  -- job's, and whose code is the one reported and not empty.
  pub decide-http_code :
      (plat : Platform) (job : Job) (a_cancelled b_cancelled : ℕ → Bool) (name code : String)
      → (decide plat http_service job a_cancelled b_cancelled).outcome ≡ complete name code
      → ((name ≡ name_a)
          × GaveCode network_a
              (request_of plat job)
              (decide plat http_service job a_cancelled b_cancelled).a_answers
              code)
        ⊎ ((name ≡ name_b)
            × GaveCode network_b
                (request_of plat job)
                (decide plat http_service job a_cancelled b_cancelled).b_answers
                code)
  unfolding decide settle fallback_outcome new_service http_provider
  decide-http_code plat job a_cancelled b_cancelled name code h =
      let request = request_of plat job in
      let d = decide plat http_service job a_cancelled b_cancelled in
      let a = issue_with_retry http_service (http_provider name_a network_a) request a_cancelled in
      let b = issue_with_retry http_service (http_provider name_b network_b) request b_cancelled in
      elim (Answer-cases a.answer) [
        | inl (r, e) ↦
            let given = called-GaveCode name_a network_a request a_cancelled r e in
            let same : a.answers ≡ d.a_answers = ground (arith, e) in
            let code_is : r.code ≡ code = ground (arith, h, e) in
            inl (
              ground (arith, h, e),
              subst (λ given_by. GaveCode network_a request given_by code) same
                  (subst (GaveCode network_a request a.answers) code_is given),
            )
        | inr (x, e) ↦ elim (Answer-cases b.answer) [
          | inl (r, k) ↦
              let given = called-GaveCode name_b network_b request b_cancelled r k in
              let same : b.answers ≡ d.b_answers = ground (arith, h, e, k) in
              let code_is : r.code ≡ code = ground (arith, h, e, k) in
              inr (
                ground (arith, h, e, k),
                subst (λ given_by. GaveCode network_b request given_by code) same
                    (subst (GaveCode network_b request b.answers) code_is given),
              )
          | inr (y, k) ↦ elim (let never : ⊥ = ground (arith, h, e, k) in never) [ ]
        ]
      ]

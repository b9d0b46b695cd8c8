-- ===== src/Delivery/Service/Fallback.antt =====
-- Which provider a delivery calls, and what it reports.
use digital_store.Prelude.{
  length, ◌∙◌, inl, inr, ℕ, ◌≤◌, length, Bool, true, false, not, String, none, some, [], ◌≡◌, refl,
  ◌∙◌, arith, inl, inr, ◌⊎◌,
}
use digital_store.Model.{Platform}
use digital_store.Delivery.Repository.Claim.{Job}
use digital_store.Delivery.Provider.{
  IssueResponse, ProviderError, is_timeout, is_out_of_stock, IssueRequest, IssueResponse, issued,
  refused, Provider,
}
use digital_store.Delivery.Service.{
  Service, new_service, Issuing, issue_with_retry, complete, Processed, settle, fallback_outcome,
  request_of, decide,
}
use digital_store.Delivery.Service.Calls.{
  asked, last_answer, allows_fallback, is_empty, Answer-cases, issue_from-length, issue_from-asked,
  issue_from-nonempty, issue_from-first, issue_from-second,
}

module _ (a b : Provider) (retries delay : ℕ) where
  abbrev pub service : Service
  service = new_service a b retries delay

  one_try : 1 ≤ service.retry_count
  unfolding new_service
  one_try = ground arith

  -- For a service that `NewService` makes, `issueWithRetry` makes one call at least and as many as the retry count at most, and no call
  -- is left out: the answers are those to the calls 1, 2, … in this order.
  pub issue_with_retry-answers :
      (p : Provider) (request : IssueRequest) (cancelled : ℕ → Bool)
      → (is_empty (issue_with_retry service p request cancelled).answers ≡ false)
        × (length (issue_with_retry service p request cancelled).answers ≤ service.retry_count)
        × ((issue_with_retry service p request cancelled).answers
            ≡ asked p request 1 (length (issue_with_retry service p request cancelled).answers))
  unfolding issue_with_retry
  issue_with_retry-answers p request cancelled = (
    issue_from-nonempty p request cancelled service.retry_count service.retry_count 1 none one_try,
    issue_from-length p request cancelled service.retry_count service.retry_count 1 none,
    issue_from-asked p request cancelled service.retry_count service.retry_count 1 none,
  )

  -- A code that `issueWithRetry` returns is the provider's answer to the last call.
  pub issue_with_retry-last :
      (p : Provider) (request : IssueRequest) (cancelled : ℕ → Bool) (r : IssueResponse)
      → (issue_with_retry service p request cancelled).answer ≡ issued r
      → last_answer (issue_with_retry service p request cancelled).answers ≡ some (issued r)
  unfolding issue_with_retry
  issue_with_retry-last p request cancelled r h =
      issue_from-first p request cancelled service.retry_count r one_try h

  module _ (plat : Platform) (job : Job) (a_cancelled b_cancelled : ℕ → Bool) where
    abbrev asked_a : Issuing
    asked_a = issue_with_retry service a (request_of plat job) a_cancelled

    abbrev asked_b : Issuing
    asked_b = issue_with_retry service b (request_of plat job) b_cancelled

    abbrev processed : Processed
    processed = decide plat service job a_cancelled b_cancelled

    decide-settle : processed ≡ settle service asked_a asked_a.answer asked_b
    unfolding decide new_service
    decide-settle = refl

    -- For a service that `NewService` makes, provider B is called exactly when the calls of provider
    -- A end in an explicit refusal: unavailable, or out of stock.
    pub decide-fallback : is_empty processed.b_answers ≡ not (allows_fallback asked_a.answer)
    unfolding settle
    decide-fallback = elim (Answer-cases asked_a.answer) [
      | inl (r, h) ↦ ground (arith, decide-settle)
      | inr (e, h) ↦
          ground
            (arith, decide-settle, (issue_with_retry-answers b (request_of plat job) b_cancelled).0)
    ]

    -- A delivery that is reported complete has the code of the last answer of the provider that
    -- it names; B is named only after it was called.
    pub decide-complete :
        (name code : String)
        → processed.outcome ≡ complete name code
        → (r : IssueResponse) × (r.code ≡ code)
          × ((name ≡ a.name)
                × (last_answer processed.a_answers ≡ some (issued r))
                × (processed.b_answers ≡ [])
              ⊎ (name ≡ b.name) × (last_answer processed.b_answers ≡ some (issued r)))
    unfolding settle fallback_outcome new_service
    decide-complete name code h = elim (Answer-cases asked_a.answer) [
      | inl (r, e) ↦ (
        r,
        ground (arith, decide-settle, h, e),
        inl (
          ground (arith, decide-settle, h, e),
          ground
              (arith, decide-settle, issue_with_retry-last a (request_of plat job) a_cancelled r e),
          ground (arith, decide-settle, e),
        ),
      )
      | inr (x, e) ↦ elim (Answer-cases asked_b.answer) [
        | inl (r, k) ↦ (
          r,
          ground (arith, decide-settle, h, e, k),
          inr (
            ground (arith, decide-settle, h, e, k),
            ground (
              arith,
              decide-settle,
              h,
              e,
              k,
              issue_with_retry-last b (request_of plat job) b_cancelled r k,
            ),
          ),
        )
        | inr (y, k) ↦ elim (let never : ⊥ = ground (arith, decide-settle, h, e, k) in never) [ ]
      ]
    ]

  -- With two tries or more and a context that is not done after the first, where provider A times
  -- out at its first call and is out of stock at its second, B is called: the timeout is forgotten.
  pub decide-forgets_timeout :
      (plat : Platform) (job : Job) (a_cancelled b_cancelled : ℕ → Bool) (x y : ProviderError)
      → 2 ≤ retries
      → a_cancelled 1 ≡ false
      → a.issue (request_of plat job) 1 ≡ refused x
      → is_timeout x.kind ≡ true
      → a.issue (request_of plat job) 2 ≡ refused y
      → is_out_of_stock y.kind ≡ true
      → is_empty (decide plat service job a_cancelled b_cancelled).b_answers ≡ false
  unfolding new_service issue_with_retry
  decide-forgets_timeout plat job a_cancelled b_cancelled x y n c hx tx hy oy =
      let last =
        issue_from-second a (request_of plat job) a_cancelled service.retry_count x y (ground arith)
          c hx tx hy oy in
      decide-fallback plat job a_cancelled b_cancelled ∙ ground (arith, last, oy)

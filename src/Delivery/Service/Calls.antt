-- ===== src/Delivery/Service/Calls.antt =====
-- The calls that `issueWithRetry` makes, and which of the answers it returns.
use digital_store.Prelude.{
  ℕ, suc, zero, ◌+◌, ◌≤◌, length, Bool, true, false, ◌||◌, Option, none, some, List, [], ◌∷◌, ◌≡◌,
  refl, arith, inl, inr, ◌⊎◌,
}
use digital_store.Delivery.Provider.{
  ProviderError, is_unavailable, is_timeout, is_out_of_stock, IssueRequest, IssueResponse, Answer,
  issued, refused, Provider,
}
use digital_store.Delivery.Service.{turn, issue_from}

-- The answers to `n` calls in a row, from call `k` on.
unfoldable pub asked : Provider → IssueRequest → (k n : ℕ) → List Answer
asked p request k zero = []
asked p request k (suc n) = p.issue request k ∷ asked p request (k + 1) n

unfoldable pub last_answer : List Answer → Option Answer
last_answer [] = none
last_answer (a ∷ []) = some a
last_answer (a ∷ b ∷ rest) = last_answer (b ∷ rest)

-- An error after which B may be called.
abbrev pub allows_fallback : Answer → Bool
allows_fallback (issued r) = false
allows_fallback (refused e) = is_unavailable e.kind || is_out_of_stock e.kind

abbrev pub is_empty : List Answer → Bool
is_empty [] = true
is_empty (a ∷ rest) = false

pub Answer-cases :
    (a : Answer) → ((r : IssueResponse) × (a ≡ issued r)) ⊎ ((e : ProviderError) × (a ≡ refused e))
Answer-cases (issued r) = inl (r, refl)
Answer-cases (refused e) = inr (e, refl)

module _ (p : Provider) (request : IssueRequest) (cancelled : ℕ → Bool) (retry_count : ℕ) where
  pub issue_from-length :
      (left attempt : ℕ) (last : Option ProviderError)
      → length (issue_from p request cancelled retry_count left attempt last).answers ≤ left
  unfolding issue_from turn length
  issue_from-length zero attempt last = ground arith
  issue_from-length (suc left) attempt last = elim (Answer-cases (p.issue request attempt)) [
    | inl (r, h) ↦ ground arith
    | inr (e, h) ↦ ground (arith, issue_from-length left (attempt + 1) (some e))
  ]

  pub issue_from-asked :
      (left attempt : ℕ) (last : Option ProviderError)
      → (issue_from p request cancelled retry_count left attempt last).answers
        ≡ asked p request attempt
            (length (issue_from p request cancelled retry_count left attempt last).answers)
  unfolding issue_from turn length asked
  issue_from-asked zero attempt last = refl
  issue_from-asked (suc left) attempt last = elim (Answer-cases (p.issue request attempt)) [
    | inl (r, h) ↦ ground arith
    | inr (e, h) ↦ ground (arith, issue_from-asked left (attempt + 1) (some e))
  ]

  issue_from-last :
      (left attempt : ℕ) (last : Option ProviderError) (r : IssueResponse)
      → attempt + left ≡ retry_count
      → (issue_from p request cancelled retry_count (suc left) attempt last).answer ≡ issued r
      → last_answer (issue_from p request cancelled retry_count (suc left) attempt last).answers
        ≡ some (issued r)
  unfolding issue_from turn last_answer
  issue_from-last zero attempt last r e h = elim (Answer-cases (p.issue request attempt)) [
    | inl (x, k) ↦ ground arith
    | inr (x, k) ↦ ground arith
  ]
  issue_from-last (suc left) attempt last r e h = elim (Answer-cases (p.issue request attempt)) [
    | inl (x, k) ↦ ground arith
    | inr (x, k) ↦ ground (arith, issue_from-last left (attempt + 1) (some x) r)
  ]

module _ (p : Provider) (request : IssueRequest) (cancelled : ℕ → Bool) (retry_count : ℕ) where
  pub issue_from-nonempty :
      (left attempt : ℕ) (last : Option ProviderError)
      → 1 ≤ left
      → is_empty (issue_from p request cancelled retry_count left attempt last).answers ≡ false
  unfolding issue_from turn
  issue_from-nonempty zero attempt last h = ground arith
  issue_from-nonempty (suc left) attempt last h = elim (Answer-cases (p.issue request attempt)) [
    | inl (r, k) ↦ ground arith
    | inr (e, k) ↦ ground arith
  ]

  pub issue_from-first :
      (r : IssueResponse)
      → 1 ≤ retry_count
      → (issue_from p request cancelled retry_count retry_count 1 none).answer ≡ issued r
      → last_answer (issue_from p request cancelled retry_count retry_count 1 none).answers
        ≡ some (issued r)
  issue_from-first r h e = go retry_count refl h e
    where
      go :
          (n : ℕ)
          → retry_count ≡ n
          → 1 ≤ n
          → (issue_from p request cancelled retry_count n 1 none).answer ≡ issued r
          → last_answer (issue_from p request cancelled retry_count n 1 none).answers
            ≡ some (issued r)
      go zero q h e = ground arith
      go (suc n) q h e = issue_from-last p request cancelled retry_count n 1 none r (ground arith) e

  -- The second answer replaces a timeout.
  pub issue_from-second :
      (x y : ProviderError)
      → 2 ≤ retry_count
      → cancelled 1 ≡ false
      → p.issue request 1 ≡ refused x
      → is_timeout x.kind ≡ true
      → p.issue request 2 ≡ refused y
      → is_out_of_stock y.kind ≡ true
      → (issue_from p request cancelled retry_count retry_count 1 none).answer ≡ refused y
  issue_from-second x y n c hx tx hy oy = go retry_count refl n
    where
      go :
          (m : ℕ)
          → retry_count ≡ m
          → 2 ≤ m
          → (issue_from p request cancelled retry_count m 1 none).answer ≡ refused y
      go zero q h = ground arith
      go (suc zero) q h = ground arith
      go (suc (suc m)) q h = unfold issue_from turn in ground (arith, c, hx, tx, hy, oy)

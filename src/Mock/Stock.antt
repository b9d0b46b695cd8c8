-- ===== src/Mock/Stock.antt =====
-- The stock of a mock provider: a request gets one code and always the same, and every code that is
-- given takes one key from the stock.
use text.Mathlib.TextEquality.{eq_iff}
use mathlib.Core.List.{Memᴰ}
use digital_store.Prelude.{
  Bool-cases, any_where_mono, ℕ, suc, ◌+◌, ◌==◌, Bool, true, false, not, ◌&&◌, String, some, List,
  [], ◌∷◌, ◌≡◌, refl, ap, arith, find_where, count_where, length, update_where, UniqueBy,
  Option-cases, inl, inr,
}
use digital_store.Prelude.Rows.{select_where-Memᴰ, sort_by-Memᴰ, find_where-Memᴰ, update_where-none}
use digital_store.Prelude.Sorting.{first-Memᴰ}
use digital_store.Delivery.Provider.{IssueRequest, IssueResponse}
use digital_store.Mock.{
  ProviderKey, Stockroom, gave, existing_issue, is_available, stocked_before, next_key, issued_key,
  issue_row, take_key, issue_key, issue_if_new, issue_code,
}

-- A provider that has given a code for a request gives the same code again, at once, and takes no
-- other key, whatever the later call draws.
pub issue_code-again :
    (locked held : ℕ → Bool) (now later : ℕ) (provider : String) (request : IssueRequest)
    (order_id again_id : ℕ) (fails timeout refuses delays late : Bool) (r : IssueResponse)
    (s s' : Stockroom)
    → issue_code locked now provider request order_id fails timeout s ≡ gave r late s'
    → issue_code held later provider request again_id refuses delays s' ≡ gave r false s'
unfolding issue_code issue_if_new issue_key existing_issue take_key issue_row find_where
issue_code-again locked held now later provider request order_id again_id fails timeout refuses
      delays late r s s' h =
    elim (Option-cases (existing_issue provider request.request_id s)) [
      | inl e ↦ ground (
        arith,
        h,
        e,
        (eq_iff provider provider).1 refl,
        (eq_iff request.request_id request.request_id).1 refl,
      )
      | inr (i, e) ↦ ground (arith, h, e)
    ]

-- An update of one row that did not pass the test makes one more row pass.
count_where-update_key :
    (key : ProviderKey → ℕ) (f : ProviderKey → ProviderKey) (a : ProviderKey)
    (xs : List ProviderKey)
    → ((x : ProviderKey) → (f x).issued ≡ true)
    → UniqueBy key xs
    → find_where (λ x. key x == key a) xs ≡ some a
    → a.issued ≡ false
    → count_where (λ x. x.issued) (update_where (λ x. (key x == key a) && not x.issued) f xs)
      ≡ suc (count_where (λ x. x.issued) xs)
unfolding count_where update_where find_where
count_where-update_key key f a [] h u e n = cc
count_where-update_key key f a (x ∷ xs) h u e n = elim (Bool-cases (key x == key a)) [
  | inl same ↦
      let a_is : a ≡ x = ground (arith, e, same) in
      let rest : update_where (λ y. (key y == key a) && not y.issued) f xs ≡ xs =
        update_where-none (λ y. (key y == key a) && not y.issued) f xs
          (any_where_mono (λ y. key y == key x) (λ y. (key y == key a) && not y.issued) xs
            (λ y k. ground (arith, k, same)) u.0) in
      ground (arith, rest, same, ap (λ k. k.issued) a_is, n, h x)
  | inr other ↦
      ground (arith, other, count_where-update_key key f a xs h u.1 (ground (arith, e, other)) n)
]

-- The key that is given is a key of the stock that nobody has been given.
pub next_key-available :
    (locked : ℕ → Bool) (provider sku : String) (s : Stockroom) (k : ProviderKey)
    → next_key locked provider sku s ≡ some k
    → Memᴰ k s.provider_keys × (is_available locked provider sku k ≡ true)
unfolding next_key
next_key-available locked provider sku s k h =
    select_where-Memᴰ (is_available locked provider sku) k s.provider_keys
      (sort_by-Memᴰ stocked_before k _ (first-Memᴰ k _ h))

next_key-fresh :
    (locked : ℕ → Bool) (provider sku : String) (s : Stockroom) (k : ProviderKey)
    → next_key locked provider sku s ≡ some k
    → k.issued ≡ false
unfolding is_available
next_key-fresh locked provider sku s k h =
    ground (arith, (next_key-available locked provider sku s k h).1)

-- A call that gives a code takes a key from the stock exactly when it records an issue: the keys that
-- are given and the issues that are recorded grow together. The ids of the keys are unique.
pub issue_code-balance :
    (locked : ℕ → Bool) (now : ℕ) (provider : String) (request : IssueRequest) (order_id : ℕ)
    (fails timeout late : Bool) (r : IssueResponse) (s s' : Stockroom)
    → UniqueBy (λ k. k.id) s.provider_keys
    → issue_code locked now provider request order_id fails timeout s ≡ gave r late s'
    → count_where (λ k. k.issued) s'.provider_keys + length s.provider_issues
      ≡ count_where (λ k. k.issued) s.provider_keys + length s'.provider_issues
unfolding issue_code issue_if_new issue_key existing_issue take_key issued_key length
issue_code-balance locked now provider request order_id fails timeout late r s s' u h =
    elim (Option-cases (existing_issue provider request.request_id s)) [
      | inl e ↦ elim (Option-cases (next_key locked provider request.sku s)) [
        | inl none_left ↦ ground (arith, h, e, none_left)
        | inr (k, given) ↦
            let (m, a) = next_key-available locked provider request.sku s k given in
            ground (
              arith,
              h,
              e,
              given,
              count_where-update_key (λ x. x.id) (issued_key now request.request_id order_id) k
                  s.provider_keys (λ x. refl) u (find_where-Memᴰ (λ x. x.id) k s.provider_keys u m)
                  (next_key-fresh locked provider request.sku s k given),
            )
      ]
      | inr (i, e) ↦ ground (arith, h, e)
    ]

-- ===== src/Tests/Keys.antt =====
-- Each result about the mock provider, applied to a stock of two keys.
use digital_store.Prelude.{
  ◌-◌, ℕ, ◌+◌, String, none, some, [], ◌∷◌, false, true, refl, ◌≡◌, count_where, length, find_where,
  any_where, select_where, sort_by, insert_by,
}
use digital_store.Delivery.Provider.{IssueRequest, ErrorKind, http_issue, failure, issued}
use digital_store.Mock.{
  ProviderKey, Stockroom, gave, existing_issue, is_available, stocked_before, next_key, take_key,
  issue_key, issue_if_new, issue_code, response_of,
}
use digital_store.Mock.Handler.{Draw, issue, reply_to}
use digital_store.Mock.Client.{IsCoded, read_issued, http_issue-issue, http_issue-recovers}
use digital_store.Tests.Shop.{platform}
use digital_store.Mock.Stock.{issue_code-again, issue_code-balance}

abbrev pub fresh_key : ℕ → String → ProviderKey
fresh_key id code = record {
  id = id;
  provider = "provider_a";
  sku = "game";
  code = code;
  issued = false;
  request_id = none;
  order_id = none;
  issued_at = none;
  created_at = 10 - id;
}

abbrev pub two_keys : Stockroom
two_keys = record { provider_keys = fresh_key 1 "K1" ∷ fresh_key 2 "K2" ∷ []; provider_issues = [] }

abbrev pub request_7 : IssueRequest
request_7 = record { request_id = "req-7"; sku = "game"; order_id = "uuuuuuu" }

-- The older key, the second one, is given.
abbrev pub one_left : Stockroom
one_left = take_key 50 "provider_a" request_7 7 (fresh_key 2 "K2") two_keys

pub issued_7 :
    issue_code (λ k. false) 50 "provider_a" request_7 7 false true two_keys
    ≡ gave (response_of "req-7" "K2") true one_left
unfolding issue_code issue_if_new existing_issue issue_key next_key is_available stocked_before
    find_where any_where select_where sort_by insert_by
issued_7 = refl

issue_code-again_example :
    issue_code (λ k. false) 60 "provider_a" request_7 7 true false one_left
    ≡ gave (response_of "req-7" "K2") false one_left
issue_code-again_example =
    issue_code-again (λ k. false) (λ k. false) 50 60 "provider_a" request_7 7 7 false true true
      false true (response_of "req-7" "K2") two_keys one_left issued_7

issue_code-balance_example :
    count_where (λ k. k.issued) one_left.provider_keys + length two_keys.provider_issues
    ≡ count_where (λ k. k.issued) two_keys.provider_keys + length one_left.provider_issues
unfolding any_where
issue_code-balance_example =
    issue_code-balance (λ k. false) 50 "provider_a" request_7 7 false true true
      (response_of "req-7" "K2") two_keys one_left (refl, (refl, tt)) issued_7

abbrev slow_draw : Draw
slow_draw = record { locked = λ k. false; now = 50; fails = false; timeout = true; down = false }

-- A draw that would fail a new request.
abbrev bad_draw : Draw
bad_draw = record { locked = λ k. false; now = 60; fails = true; timeout = false; down = false }

two_keys-IsCoded : IsCoded two_keys
unfolding any_where
two_keys-IsCoded = record { keys = refl; issues = refl }

http_issue-issue_example :
    http_issue "A" request_7
      (reply_to 2 5 (issue platform slow_draw "provider_a" (some request_7) two_keys))
    ≡ read_issued platform slow_draw "provider_a" "A" request_7 7 2 5 two_keys
        (issue_code (λ k. false) 50 "provider_a" request_7 7 false true two_keys)
http_issue-issue_example =
    http_issue-issue platform slow_draw "provider_a" "A" request_7 7 2 5 two_keys two_keys-IsCoded
      refl refl refl

http_issue-recovers_example :
    (http_issue "A" request_7
        (reply_to 2 5 (issue platform slow_draw "provider_a" (some request_7) two_keys))
      ≡ failure ErrorKind.provider_timeout "A" "")
    × ((issue platform slow_draw "provider_a" (some request_7) two_keys).stockroom ≡ one_left)
    × (http_issue "A" request_7
          (reply_to 2 5 (issue platform bad_draw "provider_a" (some request_7) one_left))
        ≡ issued (response_of "req-7" "K2"))
    × ((issue platform bad_draw "provider_a" (some request_7) one_left).stockroom ≡ one_left)
http_issue-recovers_example =
    http_issue-recovers platform slow_draw "provider_a" "A" request_7 7 2 5 two_keys bad_draw
      (response_of "req-7" "K2") one_left two_keys-IsCoded refl refl refl refl refl issued_7

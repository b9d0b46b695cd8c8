-- ===== src/Mock.antt =====
-- internal/providermock/server.go: `issueCode`, the transaction in which a mock provider takes a key
-- from its stock for a request. The random numbers, already compared with the rates, are arguments.
-- The advisory lock makes the calls of one request serial.
use digital_store.Prelude.{
  ℕ, ltb, leb, ◌==◌, str_eq, if◌then◌else◌, option_any, Bool, true, false, not, ◌&&◌, ◌||◌, String,
  Option, none, some, List, [], ◌∷◌, find_where, any_where, update_where, select_where, sort_by,
}
use digital_store.Prelude.Sorting.{first}
use digital_store.Delivery.Provider.{IssueRequest, IssueResponse}
pub mod Stock
pub mod Handler
pub mod Client

-- a row of `provider_keys`
pub record ProviderKey : Type 0 where
  pub id : ℕ
  pub provider : String
  pub sku : String
  pub code : String
  pub issued : Bool
  pub request_id : Option String
  pub order_id : Option ℕ
  pub issued_at : Option ℕ
  pub created_at : ℕ

-- the column `provider_issues.status`
pub data IssueStatus : Type 0 where
  processing issued out_of_stock failed : IssueStatus

abbrev pub is_given_status : IssueStatus → Bool
is_given_status IssueStatus.issued = true
is_given_status _ = false

-- a row of `provider_issues`; one that is issued has a code
pub record ProviderIssue : Type 0 where
  pub provider : String
  pub request_id : String
  pub sku : String
  pub order_id : ℕ
  pub code : String
  pub status : IssueStatus

pub record Stockroom : Type 0 where
  pub provider_keys : List ProviderKey
  pub provider_issues : List ProviderIssue

-- The errors that `issueCode` returns itself; a `unique` one is a broken primary key of the issues.
pub data IssueError : Type 0 where
  unavailable nothing_left unique : IssueError

-- The response, and whether the answer is to be held back until the client has given up.
pub data Issued : Type 0 where
  gave : IssueResponse → Bool → Stockroom → Issued
  refused : IssueError → Issued

abbrev pub is_issue_of : String → String → ProviderIssue → Bool
is_issue_of provider request_id i = str_eq i.provider provider && str_eq i.request_id request_id

abbrev pub is_given : String → String → ProviderIssue → Bool
is_given provider request_id i = is_issue_of provider request_id i && is_given_status i.status

-- `SELECT code FROM provider_issues WHERE …`
unfoldable pub existing_issue : String → String → Stockroom → Option ProviderIssue
existing_issue provider request_id s = find_where (is_given provider request_id) s.provider_issues

abbrev pub response_of : String → String → IssueResponse
response_of request_id code = record {
  status = "ok";
  request_id = request_id;
  code = code;
  reason = "";
}

-- The WHERE clause of the stock; `locked` are the keys that other transactions hold.
unfoldable pub is_available : (ℕ → Bool) → String → String → ProviderKey → Bool
is_available locked provider sku k =
    str_eq k.provider provider && str_eq k.sku sku && not k.issued && not (locked k.id)

-- `ORDER BY created_at, id`
unfoldable pub stocked_before : ProviderKey → ProviderKey → Bool
stocked_before a b =
    ltb a.created_at b.created_at || ((a.created_at == b.created_at) && leb a.id b.id)

unfoldable pub next_key : (ℕ → Bool) → String → String → Stockroom → Option ProviderKey
next_key locked provider sku s =
    first (sort_by stocked_before (select_where (is_available locked provider sku) s.provider_keys))

unfoldable pub issued_key : ℕ → String → ℕ → ProviderKey → ProviderKey
issued_key now request_id order_id k = record k {
  issued = true;
  request_id = some request_id;
  order_id = some order_id;
  issued_at = some now;
}

unfoldable pub issue_row : String → IssueRequest → ℕ → String → ProviderIssue
issue_row provider request order_id code = record {
  provider = provider;
  request_id = request.request_id;
  sku = request.sku;
  order_id = order_id;
  code = code;
  status = IssueStatus.issued;
}

unfoldable pub take_key : ℕ → String → IssueRequest → ℕ → ProviderKey → Stockroom → Stockroom
take_key now provider request order_id key s = record {
  provider_keys =
      update_where (λ k. (k.id == key.id) && not k.issued)
        (issued_key now request.request_id order_id) s.provider_keys;
  provider_issues = issue_row provider request order_id key.code ∷ s.provider_issues;
}

unfoldable pub issue_key :
    ℕ → String → IssueRequest → ℕ → Bool → Option ProviderKey → Stockroom → Issued
issue_key now provider request order_id timeout none s = refused nothing_left
issue_key now provider request order_id timeout (some key) s =
    if any_where (is_issue_of provider request.request_id) s.provider_issues
    then refused unique
    else gave (response_of request.request_id key.code) timeout
        (take_key now provider request order_id key s)

unfoldable pub issue_if_new :
    (ℕ → Bool)
    → ℕ
    → String
    → IssueRequest
    → ℕ
    → (fails timeout : Bool) → Option ProviderIssue
    → Stockroom
    → Issued
issue_if_new locked now provider request order_id fails timeout (some i) s =
    gave (response_of request.request_id i.code) false s
issue_if_new locked now provider request order_id fails timeout none s =
    if fails
    then refused unavailable
    else issue_key now provider request order_id timeout (next_key locked provider request.sku s) s

-- `issueCode`
unfoldable pub issue_code :
    (ℕ → Bool) → ℕ → String → IssueRequest → ℕ → (fails timeout : Bool) → Stockroom → Issued
issue_code locked now provider request order_id fails timeout s =
    issue_if_new locked now provider request order_id fails timeout
      (existing_issue provider request.request_id s) s

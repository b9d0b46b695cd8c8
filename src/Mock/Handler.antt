-- ===== src/Mock/Handler.antt =====
-- internal/providermock/server.go: the HTTP handler `issue` of a mock provider around `issueCode`,
-- and what comes of its answer at a client (`httpClient.Do` of internal/delivery/http_provider.go).
-- The JSON of a response is read back as it was written.
use digital_store.Prelude.{
  ℕ, leb, str_eq, if◌then◌else◌, Bool, false, ◌&&◌, ◌||◌, String, Option, none, some,
}
use digital_store.Model.{Platform}
use digital_store.Delivery.Provider.{
  IssueRequest, IssueResponse, Reply, timed_out, received, decoded,
}
use digital_store.Mock.{Stockroom, Issued, IssueError, gave, refused, issue_code}

-- An answer of the mock, whether it comes after the sleep, and the stock that it leaves.
pub record Served : Type 0 where
  pub status : ℕ
  pub response : IssueResponse
  pub late : Bool
  pub stockroom : Stockroom

abbrev pub refusal : ℕ → String → Stockroom → Served
refusal status reason s = record {
  status = status;
  response = record { status = "error"; request_id = ""; code = ""; reason = reason };
  late = false;
  stockroom = s;
}

-- What surrounds a call: the rows that other transactions hold, the clock, the random numbers,
-- already compared with the rates of failures and timeouts, and whether the database fails.
pub record Draw : Type 0 where
  pub locked : ℕ → Bool
  pub now : ℕ
  pub fails : Bool
  pub timeout : Bool
  pub down : Bool

-- The answer to what `issueCode` returned.
unfoldable pub serve_issued : Stockroom → Issued → Served
serve_issued s (gave response late s') = record {
  status = 200;
  response = response;
  late = late;
  stockroom = s';
}
serve_issued s (refused IssueError.nothing_left) = refusal 409 "out_of_stock" s
serve_issued s (refused IssueError.unavailable) = refusal 503 "provider_unavailable" s
serve_issued s (refused IssueError.unique) = refusal 500 "internal_error" s

unfoldable pub issue_parsed : Draw → String → IssueRequest → Option ℕ → Stockroom → Served
issue_parsed draw provider request none s = refusal 400 "invalid_order_id" s
issue_parsed draw provider request (some order_id) s =
    if draw.down
    then refusal 500 "internal_error" s
    else serve_issued s
        (issue_code draw.locked draw.now provider request order_id draw.fails draw.timeout s)

-- A required field is empty.
abbrev pub is_incomplete : IssueRequest → Bool
is_incomplete request =
    str_eq request.request_id "" || str_eq request.sku "" || str_eq request.order_id ""

-- `issue`; a body that does not decode is `none`.
unfoldable pub issue : Platform → Draw → String → Option IssueRequest → Stockroom → Served
issue plat draw provider none s = refusal 400 "invalid_request" s
issue plat draw provider (some request) s =
    if is_incomplete request
    then refusal 400 "invalid_request" s
    else issue_parsed draw provider request (plat.parse request.order_id) s

-- A client that waits for `patience` gives up on an answer that is held back for `sleep`, if that is
-- no less.
unfoldable pub reply_to : (patience sleep : ℕ) → Served → Reply
reply_to patience sleep served =
    if served.late && leb patience sleep
    then timed_out
    else received served.status (decoded served.response)

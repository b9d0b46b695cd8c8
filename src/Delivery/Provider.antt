-- ===== src/Delivery/Provider.antt =====
-- internal/delivery/provider.go and http_provider.go: the errors of a provider, its request and
-- response, and how `HTTPProvider.Issue` reads an HTTP reply. The network and the JSON decoder are
-- the reply, any value of `Reply`.
use Prim.Native.Nat.{◌/◌, ◌%◌}
use Prim.Native.String.{◌++◌ as append, slice}
use digital_store.Prelude.{
  ℕ, suc, zero, ◌+◌, ltb, leb, ◌==◌, str_eq, if◌then◌else◌, Bool, true, false, not, ◌||◌, String,
}

-- The sentinel that an error wraps, if it wraps one: `errors.Is` tells them apart.
pub data ErrorKind : Type 0 where
  provider_unavailable provider_timeout out_of_stock invalid_response canceled other : ErrorKind

pub record ProviderError : Type 0 where
  pub kind : ErrorKind
  pub text : String

abbrev pub is_unavailable : ErrorKind → Bool
is_unavailable ErrorKind.provider_unavailable = true
is_unavailable _ = false

abbrev pub is_timeout : ErrorKind → Bool
is_timeout ErrorKind.provider_timeout = true
is_timeout _ = false

abbrev pub is_out_of_stock : ErrorKind → Bool
is_out_of_stock ErrorKind.out_of_stock = true
is_out_of_stock _ = false

abbrev pub is_invalid : ErrorKind → Bool
is_invalid ErrorKind.invalid_response = true
is_invalid _ = false

pub record IssueRequest : Type 0 where
  pub request_id : String
  pub sku : String
  pub order_id : String

pub record IssueResponse : Type 0 where
  pub status : String
  pub request_id : String
  pub code : String
  pub reason : String

-- `IssueResponse{}`
abbrev pub empty_response : IssueResponse
empty_response = record { status = ""; request_id = ""; code = ""; reason = "" }

-- The `(IssueResponse, error)` of a call.
pub data Answer : Type 0 where
  issued : IssueResponse → Answer
  refused : ProviderError → Answer

-- The body of a reply, decoded; a body that is cut off at the limit does not decode.
pub data Body : Type 0 where
  no_body : Body
  malformed : String → Body
  decoded : IssueResponse → Body

-- What comes of `httpClient.Do`.
pub data Reply : Type 0 where
  not_sent : String → Reply
  timed_out : Reply
  transport_error : String → Reply
  unread : String → Reply
  received : ℕ → Body → Reply

-- `%d`, with as much fuel as the number has digits
unfoldable pub decimal_from : ℕ → ℕ → String
decimal_from zero n = ""
decimal_from (suc fuel) n =
    let digit = slice "0123456789" (n % 10) (n % 10 + 1) in
    let front = decimal_from fuel (n / 10) in if ltb n 10 then digit else append front digit

unfoldable pub decimal : ℕ → String
decimal n = decimal_from (suc n) n

-- The sentinels' messages, with `: provider=%s`.
abbrev pub message_of : ErrorKind → String
message_of ErrorKind.provider_unavailable = "provider unavailable"
message_of ErrorKind.provider_timeout = "provider timeout"
message_of ErrorKind.out_of_stock = "out of stock"
message_of ErrorKind.invalid_response = "invalid provider response"
message_of ErrorKind.canceled = "context canceled"
message_of ErrorKind.other = ""

abbrev pub from_provider : ErrorKind → String → String
from_provider kind name = append (message_of kind) (append ": provider=" name)

unfoldable pub failure : ErrorKind → String → String → Answer
failure kind name detail =
    refused (record { kind = kind; text = append (from_provider kind name) detail })

-- The answer of a reply with a decoded body.
unfoldable pub read_response : String → IssueRequest → ℕ → IssueResponse → Answer
read_response name request code response =
    if code == 200
    then (if not (str_eq response.status "ok")
          || not (str_eq response.request_id request.request_id)
          || str_eq response.code ""
        then failure ErrorKind.invalid_response name ""
        else issued response)
    else if code == 409
    then (if str_eq response.reason "out_of_stock"
        then failure ErrorKind.out_of_stock name ""
        else failure ErrorKind.invalid_response name (append ", status=" (decimal code)))
    else if leb 500 code
    then failure ErrorKind.provider_unavailable name (append ", status=" (decimal code))
    else failure ErrorKind.invalid_response name (append ", status=" (decimal code))

unfoldable pub read_body : String → IssueRequest → ℕ → Body → Answer
read_body name request code no_body = read_response name request code empty_response
read_body name request code (malformed e) = failure ErrorKind.invalid_response name (append ": " e)
read_body name request code (decoded response) = read_response name request code response

-- `HTTPProvider.Issue`
unfoldable pub http_issue : String → IssueRequest → Reply → Answer
http_issue name request (not_sent e) =
    refused (record { kind = ErrorKind.other; text = append "create provider request: " e })
http_issue name request timed_out = failure ErrorKind.provider_timeout name ""
http_issue name request (transport_error e) =
    failure ErrorKind.provider_unavailable name (append ": " e)
http_issue name request (unread e) =
    refused (record { kind = ErrorKind.other; text = append "read provider response: " e })
http_issue name request (received code body) = read_body name request code body

-- The `Provider` interface: a name, and the answer to the n-th call of a delivery, which the
-- provider and the network are free to choose.
pub record Provider : Type 0 where
  pub name : String
  pub issue : IssueRequest → ℕ → Answer

-- `NewHTTPProvider`, on a network that gives a reply to each call.
unfoldable pub http_provider : String → (IssueRequest → ℕ → Reply) → Provider
http_provider name network = record {
  name = name;
  issue = λ request n. http_issue name request (network request n);
}

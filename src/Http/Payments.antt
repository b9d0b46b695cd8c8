-- ===== src/Http/Payments.antt =====
-- internal/httpapi/server.go: `paymentWebhook`.
use digital_store.Prelude.{
  str_eq, if◌then◌else◌, is_negative, is_some, not, ◌&&◌, String, Option, none, some,
}
use digital_store.Model.{Db, PaymentWebhook, Result, ok, err, Platform}
use digital_store.Order.{process_payment}
use digital_store.Http.{
  Content, Response, Moment, Payload, not_json, not_encoded, not_event, event, write_json,
  internal_error, attempt, answer, refuse,
}

-- The checks of the event in their order, with the message of the first that fails.
unfoldable pub event_error : Platform → PaymentWebhook → Option String
event_error plat e =
    if str_eq e.event_id ""
    then some "event_id is required"
    else if str_eq e.order_id ""
    then some "order_id is required"
    else if not (str_eq e.status "paid") && not (str_eq e.status "failed")
    then some "invalid payment status"
    else if is_negative e.amount
    then some "amount must not be negative"
    else if str_eq e.currency ""
    then some "currency is required"
    else if not (is_some (plat.parse e.order_id))
    then some "invalid order_id"
    else none

unfoldable pub processed : Result (Unit {0}) → Response
processed (ok u) = write_json 200 Content.accepted
processed (err e) = internal_error

unfoldable pub accept :
    Platform → Moment → PaymentWebhook → String → Option String → Db → Response × Db
accept plat at e body (some text) = refuse 400 text
accept plat at e body none = answer (attempt at (process_payment plat at.env e body)) processed

-- `paymentWebhook`
unfoldable pub payment_webhook : Platform → Moment → Payload → Db → Response × Db
payment_webhook plat at not_json = refuse 400 "invalid JSON"
payment_webhook plat at not_encoded = refuse 400 "invalid payload"
payment_webhook plat at not_event = refuse 400 "invalid payment payload"
payment_webhook plat at (event e body) = accept plat at e body (event_error plat e)

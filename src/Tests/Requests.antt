-- ===== src/Tests/Requests.antt =====
-- Each result about the HTTP handlers, applied to the shop.
use mathlib.Core.Option
use digital_store.Prelude.{ℕ, [], ◌∷◌, true, false, refl, ◌≡◌, any_where}
use digital_store.Model.{after, order_of, is_taken}
use digital_store.Prelude.{fits_char}
use digital_store.Order.{is_storable, process_payment}
use digital_store.System.{opened}
use digital_store.Http.{
  Content, Server, Moment, Payload, new_server, with_catalog, with_operations, apply_options,
  write_json,
}
use digital_store.Http.Payments.{event_error, payment_webhook}
use digital_store.Http.Operations.{retry_delivery}
use digital_store.Http.Retries.{retry_answer, retry_delivery-answer}
use digital_store.Http.Accepts.{payment_webhook-answer}
use digital_store.Tests.Shop.{platform, at_time, catalog, paid_7, paid_db}
use digital_store.Tests.States.{paid-Coherent}

-- The server as `main` sets it up.
abbrev api : Server
api = new_server (with_operations true true ∷ with_catalog true ∷ [])

abbrev moment : ℕ → Moment
moment t = record {
  env = at_time t;
  drawn = 8;
  down = false;
  inventory = [];
  meanwhile = λ n db. db;
}

retry_delivery-answer_example :
    (retry_delivery api platform (moment 50) "uuuuuuu" paid_db).0
    ≡ retry_answer 7 (Option.map (λ o. o.status) (order_of 7 paid_db))
unfolding new_server apply_options with_operations with_catalog
retry_delivery-answer_example =
    retry_delivery-answer api platform (moment 50) "uuuuuuu" 7 paid_db paid-Coherent refl refl refl

-- The payment comes before its order.
payment_webhook-answer_example :
    payment_webhook platform (moment 50) (Payload.event paid_7 "{}") (opened catalog).db ≡ (
      write_json 200 Content.accepted,
      after (process_payment platform (at_time 50) paid_7 "{}") (opened catalog).db,
    )
unfolding event_error is_taken any_where is_storable fits_char
payment_webhook-answer_example =
    payment_webhook-answer platform (moment 50) paid_7 "{}" (opened catalog).db refl
      (λ id p first. refl)

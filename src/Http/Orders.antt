-- ===== src/Http/Orders.antt =====
-- internal/httpapi/server.go and dto.go: `createOrder` and `getOrder`.
use digital_store.Prelude.{str_eq, if◌then◌else◌, String, Option, none, some, trim_space, ℕ}
use digital_store.Model.{Db, Order, Result, ok, err, Platform, Error}
use digital_store.Order.{create, get_by_id}
use digital_store.Http.{
  Content, Response, Moment, write_json, write_error, internal_error, attempt, answer, refuse,
}

-- `CreateOrderRequest`
pub record CreateOrderRequest : Type 0 where
  pub order_id : String
  pub sku : String

-- The two assignments of `strings.TrimSpace`.
unfoldable pub trimmed : CreateOrderRequest → CreateOrderRequest
trimmed r = record { order_id = trim_space r.order_id; sku = trim_space r.sku }

unfoldable pub created : Result (Order × Option String) → Response
created (ok (o, code)) = write_json 201 (Content.order o code)
created (err Error.product_not_found) = write_error 404 "product not found"
created (err e) = internal_error

-- `Create`, which draws the id, or `CreateWithID`
unfoldable pub create_with : Platform → Moment → ℕ → String → Db → Response × Db
create_with plat at id sku = answer (attempt at (create plat at.env id sku)) created

unfoldable pub create_parsed : Platform → Moment → String → Option ℕ → Db → Response × Db
create_parsed plat at sku none = refuse 400 "invalid order_id"
create_parsed plat at sku (some id) = create_with plat at id sku

unfoldable pub create_decoded : Platform → Moment → CreateOrderRequest → Db → Response × Db
create_decoded plat at r =
    if str_eq r.sku ""
    then refuse 400 "sku is required"
    else if str_eq r.order_id ""
    then create_with plat at at.drawn r.sku
    else create_parsed plat at r.sku (plat.parse r.order_id)

-- `createOrder`; a body that does not decode is `none`.
unfoldable pub create_order : Platform → Moment → Option CreateOrderRequest → Db → Response × Db
create_order plat at none = refuse 400 "invalid JSON"
create_order plat at (some r) = create_decoded plat at (trimmed r)

unfoldable pub got : Result (Order × Option String) → Response
got (ok (o, code)) = write_json 200 (Content.order o code)
got (err Error.order_not_found) = write_error 404 "order not found"
got (err e) = internal_error

unfoldable pub get_parsed : Moment → Option ℕ → Db → Response × Db
get_parsed at none = refuse 400 "invalid order id"
get_parsed at (some id) = answer (attempt at (get_by_id id)) got

-- `getOrder`
unfoldable pub get_order : Platform → Moment → String → Db → Response × Db
get_order plat at id = get_parsed at (plat.parse id)

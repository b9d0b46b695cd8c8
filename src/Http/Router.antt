-- ===== src/Http/Router.antt =====
-- internal/httpapi/server.go: `Router`.
use digital_store.Prelude.{String, Option}
use digital_store.Model.{Db, Platform}
use digital_store.Http.{Response, Server, Moment, Payload}
use digital_store.Http.Orders
use digital_store.Http.Orders.{CreateOrderRequest}
use digital_store.Http.Payments
use digital_store.Http.Operations
use digital_store.Http.Listing

-- A request that chi has matched to a route, with what its handler reads: the path parameter `id`,
-- the query parameters `limit` and `after`, or the decoded body.
pub data Request : Type 0 where
  liveness readiness : Request
  create_order : Option CreateOrderRequest → Request
  get_order : String → Request
  payment_webhook : Payload → Request
  reconciliation_report : Request
  catalog : String → String → Request
  repair_reconciliation : Request
  retry_delivery : String → Request

-- The method and the pattern that a handler is registered under.
unfoldable pub route_of : Request → String × String
route_of Request.liveness = ("GET", "/health/live")
route_of Request.readiness = ("GET", "/health/ready")
route_of (Request.create_order body) = ("POST", "/api/orders")
route_of (Request.get_order id) = ("GET", "/api/orders/{id}")
route_of (Request.payment_webhook payload) = ("POST", "/api/webhooks/payment")
route_of Request.reconciliation_report = ("GET", "/api/admin/reconciliation")
route_of (Request.catalog limit after_sku) = ("GET", "/api/ctalog")
route_of Request.repair_reconciliation = ("POST", "/api/admin/reconciliation/repair")
route_of (Request.retry_delivery id) = ("POST", "/api/admin/orders/{id}/retry-delivery")

-- The handler of a route.
unfoldable pub serve : Server → Platform → Moment → Request → Db → Response × Db
serve server plat at Request.liveness = Operations.liveness
serve server plat at Request.readiness = Operations.readiness server at
serve server plat at (Request.create_order body) = Orders.create_order plat at body
serve server plat at (Request.get_order id) = Orders.get_order plat at id
serve server plat at (Request.payment_webhook payload) = Payments.payment_webhook plat at payload
serve server plat at Request.reconciliation_report = Operations.reconciliation_report server at
serve server plat at (Request.catalog limit after_sku) =
    Listing.catalog server plat at limit after_sku
serve server plat at Request.repair_reconciliation = Operations.repair_reconciliation server plat at
serve server plat at (Request.retry_delivery id) = Operations.retry_delivery server plat at id

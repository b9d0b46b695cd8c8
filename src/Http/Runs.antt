-- ===== src/Http/Runs.antt =====
-- Each request is at most one transaction of the store.
use digital_store.Prelude.{
  ℕ, str_eq, true, false, not, Bool, if◌then◌else◌, String, Option, none, some, ℤ, ◌≡◌, refl, sym,
  subst, arith,
}
use digital_store.Model.{PaymentWebhook, context_canceled, Db, Platform, Tx, Result, ok, err, after}
use digital_store.Order.{create, process_payment, get_by_id}
use digital_store.Reconciliation.Retry.{retry_delivery as retry_delivery_of}
use digital_store.Reconciliation.Repair.{repair}
use digital_store.System.{State, committed, Step, Run}
use digital_store.Http.{
  Response, Server, Moment, Payload, not_json, not_encoded, not_event, event, answer, attempt,
}
use digital_store.Http.Orders.{
  CreateOrderRequest, create_with, create_decoded, create_order, trimmed, created, got, get_order,
  create_parsed, get_parsed,
}
use digital_store.Http.Payments.{event_error, processed, accept, payment_webhook}
use digital_store.Http.Operations.{
  liveness, readiness, report_of, reported, reconciliation_report, repair_reconciliation, repaired,
  retried, retry_parsed, retry_delivery,
}
use digital_store.Http.Listing.{limit_of, listed, list_limited, catalog, is_out_of_range}
use digital_store.Http.Router.{Request, serve}

get_by_id-after : (id : ℕ) (db : Db) → after (get_by_id id) db ≡ db
unfolding get_by_id
get_by_id-after id db = ground arith

module _ (plat : Platform) (at : Moment) (s : State) where
  -- The state after a request is one that the store reaches.
  abbrev Served : Response × Db → Type 0
  Served r = Run plat s (record s { db = r.1 })

  if-Served :
      (b : Bool) (f g : Db → Response × Db)
      → Served (f s.db)
      → Served (g s.db)
      → Served ((if b then f else g) s.db)
  if-Served true f g hf hg = hf
  if-Served false f g hf hg = hg

  -- A call of a transaction that is a step.
  step-Served :
      {A : Type 0} (m : Tx A) (respond : Result A → Response)
      → Step plat s (committed s (m s.db))
      → Served (answer (attempt at m) respond s.db)
  unfolding answer attempt
  step-Served {A} m respond step =
      elim at.down
        as (λ down. Run plat s (record s {
          db = after (λ db. elim down [ true ↦ err context_canceled | false ↦ m db ]) s.db;
        })) [ true ↦ Run.idle | false ↦ go (m s.db) (Run.then Run.idle step) ]
    where
      go :
          (r : Result (A × Db))
          → Run plat s (committed s r)
          → Run plat s (record s { db = after (λ db. r) s.db })
      go (ok (a, db)) h = h
      go (err e) h = h

  -- A call that only reads.
  read-Served :
      {A : Type 0} (m : Tx A) (respond : Result A → Response)
      → after m s.db ≡ s.db
      → Served (answer (attempt at m) respond s.db)
  unfolding answer attempt
  read-Served m respond e =
      elim at.down
        as (λ down. Run plat s (record s {
          db = after (λ db. elim down [ true ↦ err context_canceled | false ↦ m db ]) s.db;
        })) [
          | true ↦ Run.idle
          | false ↦ subst (λ (db : Db). Run plat s (record s { db = db })) (sym e) Run.idle
        ]

  create_with-Served : (id : ℕ) (sku : String) → Served (create_with plat at id sku s.db)
  unfolding create_with
  create_with-Served id sku =
      step-Served (create plat at.env id sku) created (Step.order_created at.env id sku)

  create_parsed-Served : (sku : String) (id : Option ℕ) → Served (create_parsed plat at sku id s.db)
  unfolding create_parsed
  create_parsed-Served sku none = Run.idle
  create_parsed-Served sku (some i) = create_with-Served i sku

  create_order-Served : (body : Option CreateOrderRequest) → Served (create_order plat at body s.db)
  unfolding create_order create_decoded
  create_order-Served none = Run.idle
  create_order-Served (some r) = if-Served (str_eq (trimmed r).sku "") _ _ Run.idle (
      if-Served (str_eq (trimmed r).order_id "") _ _ (create_with-Served at.drawn (trimmed r).sku)
        (create_parsed-Served (trimmed r).sku (plat.parse (trimmed r).order_id)))

  get_parsed-Served : (id : Option ℕ) → Served (get_parsed at id s.db)
  unfolding get_parsed
  get_parsed-Served none = Run.idle
  get_parsed-Served (some i) = read-Served (get_by_id i) got (get_by_id-after i s.db)

  accept-Served :
      (e : PaymentWebhook) (body : String) (x : Option String)
      → Served (accept plat at e body x s.db)
  unfolding accept
  accept-Served e body none =
      step-Served (process_payment plat at.env e body) processed
        (Step.payment_received at.env e body)
  accept-Served e body (some text) = Run.idle

  payment_webhook-Served : (payload : Payload) → Served (payment_webhook plat at payload s.db)
  unfolding payment_webhook
  payment_webhook-Served not_json = Run.idle
  payment_webhook-Served not_encoded = Run.idle
  payment_webhook-Served not_event = Run.idle
  payment_webhook-Served (event e body) = accept-Served e body (event_error plat e)

  retry_parsed-Served : (id : Option ℕ) → Served (retry_parsed plat at id s.db)
  unfolding retry_parsed
  retry_parsed-Served none = Run.idle
  retry_parsed-Served (some id) =
      step-Served (retry_delivery_of plat at.env id) retried (Step.delivery_retried at.env id)

  list_limited-Served :
      (limit : Option ℤ) (after_sku : String) → Served (list_limited plat at limit after_sku s.db)
  unfolding list_limited
  list_limited-Served none after_sku = Run.idle
  list_limited-Served (some limit) after_sku =
      if-Served (is_out_of_range limit) _ _ Run.idle (read-Served _ listed refl)

  -- A request, whatever it asks for, takes the store from a state to one that it reaches by its own
  -- transactions, at most one: what holds of all reachable states holds after any requests.
  pub serve-Run :
      (server : Server) (request : Request)
      → Run plat s (record s { db = (serve server plat at request s.db).1 })
  unfolding serve liveness readiness reconciliation_report repair_reconciliation retry_delivery
      catalog get_order report_of
  serve-Run server Request.liveness = Run.idle
  serve-Run server Request.readiness = Run.idle
  serve-Run server (Request.create_order body) = create_order-Served body
  serve-Run server (Request.get_order id) = get_parsed-Served (plat.parse id)
  serve-Run server (Request.payment_webhook payload) = payment_webhook-Served payload
  serve-Run server Request.reconciliation_report =
      if-Served (not server.reconciliation_service) _ _ Run.idle (read-Served _ reported refl)
  serve-Run server (Request.catalog limit after_sku) =
      if-Served (not server.catalog_repo) _ _ Run.idle
        (list_limited-Served (limit_of limit) after_sku)
  serve-Run server Request.repair_reconciliation =
      if-Served (not server.reconciliation_service) _ _ Run.idle
        (step-Served (repair plat at.env) repaired (Step.orders_repaired at.env))
  serve-Run server (Request.retry_delivery id) =
      if-Served (not server.reconciliation_service) _ _ Run.idle
        (retry_parsed-Served (plat.parse id))

-- ===== src/Http/Accepts.antt =====
-- Which webhooks are accepted.
use digital_store.Prelude.{
  ℕ, Bool-cases, false, if◌then◌else◌, ◌==◌, str_eq, is_negative, Option-cases, inl, inr, true,
  false, ◌||◌, String, none, some, ◌≡◌, arith, any_where,
}
use digital_store.Model.{Db, PaymentWebhook, Platform, is_taken, pending_attempt, after}
use digital_store.Order.{is_storable, check_event, process_payment}
use digital_store.Coherence.Payable.{process_payment-Commits, Commits}
use digital_store.Http.{
  Content, Moment, event, write_json, write_error, internal_error, answer, attempt,
}
use digital_store.Http.Payments.{event_error, processed, accept, payment_webhook}

module _ (plat : Platform) (at : Moment) where
  -- What the checks establish.
  event_error-none :
      (e : PaymentWebhook)
      → event_error plat e ≡ none
      → (id : ℕ) × (plat.parse e.order_id ≡ some id)
        × ((str_eq e.status "paid" || str_eq e.status "failed") ≡ true)
        × (is_negative e.amount ≡ false)
  unfolding event_error
  event_error-none e h = elim (Option-cases (plat.parse e.order_id)) [
    | inl n ↦ elim (let never : ⊥ = ground (arith, h, n) in never) [ ]
    | inr (id, p) ↦ (id, p, ground (arith, h), ground (arith, h))
  ]

  accepted :
      (e : PaymentWebhook) (body : String) (db : Db)
      → at.down ≡ false
      → Commits (process_payment plat at.env e body) db
      → accept plat at e body none db
        ≡ (write_json 200 Content.accepted, after (process_payment plat at.env e body) db)
  unfolding accept answer attempt processed
  accepted e body db up c = ground (arith, up, c.commits)

  rejected :
      (e : PaymentWebhook) (body : String) (db : Db) (id : ℕ)
      → at.down ≡ false
      → plat.parse e.order_id ≡ some id
      → is_storable plat e body ≡ false
      → accept plat at e body none db ≡ (internal_error, db)
  unfolding accept answer attempt processed process_payment check_event
  rejected e body db id up parsed unstorable = ground (arith, up, parsed, unstorable)

  -- While the database is up, a webhook whose body has an event is answered by its checks and the
  -- columns of the table alone: the first check that fails is a 400 with its message and no change; an event that passes
  -- them is a 500 and no change where the columns do not take it, since its currency is longer than
  -- CHAR(3) or its body is no jsonb; any other is processed and accepted, whether or not it is a
  -- duplicate, fits its order or has one. The first attempt of the order that it names, if the order
  -- has none, takes no id or request id in use.
  pub payment_webhook-answer :
      (e : PaymentWebhook) (body : String) (db : Db)
      → at.down ≡ false
      → ((id : ℕ)
          → plat.parse e.order_id ≡ some id
          → any_where (λ d. d.order_id == id) db.delivery_attempts ≡ false
          → is_taken (pending_attempt plat at.env id) db ≡ false)
      → payment_webhook plat at (event e body) db ≡ elim (event_error plat e) [
        | some text ↦ (write_error 400 text, db)
        | none ↦
            if is_storable plat e body
            then (write_json 200 Content.accepted, after (process_payment plat at.env e body) db)
            else (internal_error, db)
      ]
  unfolding payment_webhook accept
  payment_webhook-answer e body db up free = elim (Option-cases (event_error plat e)) [
    | inl none_wrong ↦
        let (id, p, s, a) = event_error-none e none_wrong in
        elim (Bool-cases (is_storable plat e body)) [
          | inl w ↦ ground (
            arith,
            none_wrong,
            w,
            accepted e body db up
                (process_payment-Commits plat at.env id e body db w p s a (free id p)),
          )
          | inr w ↦ ground (arith, none_wrong, w, rejected e body db id up p w)
        ]
    | inr (text, wrong) ↦ ground (arith, wrong)
  ]

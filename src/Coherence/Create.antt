-- ===== src/Coherence/Create.antt =====
-- The creation of an order, with the payments that arrived before it, keeps the database coherent.
use digital_store.Prelude.{
  subst, ℕ, ◌==◌, String, ℤ, List, [], ◌∷◌, Option, none, some, ◌≡◌, refl, arith, false, find_where,
  is_some, sym, Bool-cases, inl, inr,
}
use digital_store.Model.{
  Db, Order, Product, PaymentEvent, Env, Platform, order_of, attempt_of, payment_entries,
  delivery_entries, has_order,
}
use digital_store.Model.View.{View, view, on, has_order-order_of}
use digital_store.Order.{find_product, new_order, add_order, insert_order, get_by_id, create}
use digital_store.Order.Pending.{
  apply_if_locked, apply_pending_event, apply_events, apply_pending_payments,
}
use digital_store.Coherence.Invariant.{Memory, Tabled, Coupled, Coherent}
use digital_store.Coherence.Keeps.{
  OnOk, OnOk-err, Keeps, Keeps-bind, Keeps-gets, Keeps-raise, Keeps-pure,
}
use digital_store.Coherence.Acts.{Acts, Keeps-read}
use digital_store.Coherence.Orders.{
  event_view, event_view-Coupled, apply_payment-Acts, apply_payment-Tabled,
}

view-add_order :
    (k : ℕ) (db : Db) (o : Order)
    → view k (add_order o db) ≡ on o.id k (λ v. record v { order = some o }) (view k db)
unfolding add_order order_of attempt_of payment_entries delivery_entries find_where
view-add_order k db o = ground arith

-- An order that nobody refers to yet starts coupled.
new_order-Coupled :
    (env : Env) (id : ℕ) (sku : String) (p : Product) {n : Memory} (v : View)
    → is_some v.order ≡ false
    → Coupled n v
    → Coupled n (record v { order = some (new_order env id sku p) })
unfolding new_order
new_order-Coupled env id sku p v e c = ground arith

add_order-Coherent :
    (env : Env) (id : ℕ) (sku : String) (p : Product) {known : ℕ → Memory} (db : Db)
    → has_order id db ≡ false
    → Coherent known db
    → Coherent known (add_order (new_order env id sku p) db)
add_order-Coherent env id sku p {known} db e c = record {
  keyed =
      unfold add_order has_order new_order in
      record {
        order_ids = (e, c.keyed.order_ids);
        attempt_ids = c.keyed.attempt_ids;
        attempt_orders = c.keyed.attempt_orders;
        no_refund = c.keyed.no_refund;
      };
  coupled = λ k.
      subst (Coupled (known k)) (sym (view-add_order k db (new_order env id sku p))) (coupled-on k);
}
  where
    coupled-on :
        (k : ℕ)
        → Coupled (known k) (
            on
              (new_order env id sku p).id
              k
              (λ v. record v { order = some (new_order env id sku p) })
              (view k db))
    coupled-on k = elim (Bool-cases ((new_order env id sku p).id == k)) [
      | inl same ↦ rw same (
          new_order-Coupled env id sku p (view k db)
            (unfold new_order in ground (arith, has_order-order_of k db)) (c.coupled k))
      | inr other ↦ rw other (c.coupled k)
    ]

insert_order-Coherent :
    {known : ℕ → Memory} (env : Env) (id : ℕ) (sku : String) (p : Product)
    → Keeps (Coherent known) (insert_order (new_order env id sku p))
unfolding insert_order new_order
insert_order-Coherent {known} env id sku p = record {
  at = λ db c. ground (arith, add_order-Coherent env id sku p {known = known} db);
}

module _ (plat : Platform) (env : Env) (id : ℕ) (amount : ℤ) (currency : String) where
  apply_pending_event-Coherent :
      {known : ℕ → Memory} (e : PaymentEvent)
      → Keeps (Coherent known) (apply_pending_event plat env id amount currency e)
  unfolding apply_pending_event apply_if_locked
  apply_pending_event-Coherent e =
      Keeps-read id (λ v. v.order) pending_view (apply_if_locked plat env id amount currency e) acts
        (λ n v c. coupled v.order v refl c) keyed
    where
      pending_view : Option Order → View → View
      pending_view none v = v
      pending_view (some o) v =
          event_view plat env id e.event_id e.status e.amount_minor e.currency o.status amount
            currency v

      acts :
          (r : Option Order)
          → Acts id (pending_view r) (apply_if_locked plat env id amount currency e r)
      acts none = record { at = λ db k. OnOk-err }
      acts (some o) =
          apply_payment-Acts plat env id e.event_id e.status e.amount_minor e.currency o.status
            amount currency

      coupled :
          {n : Memory} (r : Option Order) (v : View)
          → v.order ≡ r
          → Coupled n v
          → Coupled n (pending_view r v)
      coupled none v h c = c
      coupled (some o) v h c =
          event_view-Coupled plat env id e.event_id e.status e.amount_minor e.currency amount
            currency o v h c

      keyed : (r : Option Order) → Keeps Tabled (apply_if_locked plat env id amount currency e r)
      keyed none = Keeps-raise _
      keyed (some o) =
          apply_payment-Tabled plat env id e.event_id e.status e.amount_minor e.currency o.status
            amount currency

  apply_events-Coherent :
      {known : ℕ → Memory} (es : List PaymentEvent)
      → Keeps (Coherent known) (apply_events plat env id amount currency es)
  unfolding apply_events
  apply_events-Coherent [] = Keeps-pure tt
  apply_events-Coherent (e ∷ es) =
      Keeps-bind _ _ (apply_pending_event-Coherent e) (λ _. apply_events-Coherent es)

find_product-Keeps : {known : ℕ → Memory} (sku : String) → Keeps (Coherent known) (find_product sku)
unfolding find_product
find_product-Keeps sku = record { at = λ db c. ground arith }

get_by_id-Keeps : {known : ℕ → Memory} (id : ℕ) → Keeps (Coherent known) (get_by_id id)
unfolding get_by_id
get_by_id-Keeps id = record { at = λ db c. ground arith }

pub create-Keeps :
    {known : ℕ → Memory} (plat : Platform) (env : Env) (id : ℕ) (sku : String)
    → Keeps (Coherent known) (create plat env id sku)
unfolding create apply_pending_payments
create-Keeps plat env id sku = Keeps-bind _ _ (find_product-Keeps sku) λ p.
    Keeps-bind _ _ (insert_order-Coherent env id sku p) λ _.
      Keeps-bind _ _
        (Keeps-bind _ _ (Keeps-gets _)
          (λ es. apply_events-Coherent plat env id p.price_minor p.currency es))
        λ _. get_by_id-Keeps id

-- The creation of an order, with the payments that arrived before it, keeps the database coherent
-- with what is remembered of it.
pub create-Coherent :
    {known : ℕ → Memory} (plat : Platform) (env : Env) (id : ℕ) (sku : String) (db : Db)
    → Coherent known db
    → OnOk (λ r db'. Coherent known db') (create plat env id sku db)
create-Coherent plat env id sku db c = (create-Keeps plat env id sku).at db c

-- ===== src/Coherence/Recovery.antt =====
-- Recovering the jobs of lost workers keeps the database coherent.
use digital_store.Prelude.{
  ℕ, ◌-◌, ◌==◌, option_any, ◌&&◌, some, ◌≡◌, refl, sym, arith, subst, Option-cases, inl, inr,
  any_where-UniqueBy, update_where-UniqueBy, find_where-update_where,
}
use digital_store.Model.{
  Db, Order, is_delivering, Env, attempt_of, order_of, payment_entries, delivery_entries,
}
use digital_store.Model.View.{View, view, map_attempt, map_order, order_of-id}
use digital_store.Coherence.Invariant.{Memory, Tabled, Coupled, Coherent}
use digital_store.Coherence.Keeps.{OnOk, OnOk-ok, Keeps}
use digital_store.Delivery.Repository.Claim.{
  is_stale, expired_attempt, expired_order, lost_its_worker, expire_leases, recover_stale_jobs,
}

-- The view of an order after the recovery.
abbrev expired_view : Env → ℕ → View → View
expired_view env cutoff v = map_attempt (is_stale cutoff) (expired_attempt env) (
    map_order (λ o. option_any (is_stale cutoff) v.attempt && is_delivering o.status)
      (expired_order env) v)

-- A lost order is one whose own attempt is stale.
lost_its_worker-attempt_of :
    (cutoff k : ℕ) (db : Db) (o : Order)
    → Tabled db
    → order_of k db ≡ some o
    → lost_its_worker cutoff db o
      ≡ (option_any (is_stale cutoff) (attempt_of k db) && is_delivering o.status)
unfolding lost_its_worker attempt_of
lost_its_worker-attempt_of cutoff k db o keyed e = ground (
  arith,
  order_of-id k db e,
  any_where-UniqueBy (λ d. d.order_id) k (is_stale cutoff) db.delivery_attempts
      keyed.attempt_orders,
)

expired-Coupled :
    (env : Env) (cutoff : ℕ) {n : Memory} (v : View)
    → Coupled n v
    → Coupled n (expired_view env cutoff v)
unfolding is_stale expired_attempt expired_order
expired-Coupled env cutoff v c = ground arith

view-expire_leases :
    (env : Env) (cutoff k : ℕ) (db : Db)
    → Tabled db
    → view k (expire_leases env cutoff db) ≡ expired_view env cutoff (view k db)
unfolding expire_leases order_of attempt_of payment_entries delivery_entries expired_attempt
    expired_order
view-expire_leases env cutoff k db keyed = elim (Option-cases (order_of k db)) [
  | inl e ↦ ground (
    arith,
    find_where-update_where (λ d. d.order_id == k) (is_stale cutoff) (expired_attempt env)
        db.delivery_attempts (λ d. refl),
    find_where-update_where (λ o. o.id == k) (lost_its_worker cutoff db) (expired_order env)
        db.orders (λ o. refl),
  )
  | inr (o, e) ↦ ground (
    arith,
    find_where-update_where (λ d. d.order_id == k) (is_stale cutoff) (expired_attempt env)
        db.delivery_attempts (λ d. refl),
    find_where-update_where (λ o. o.id == k) (lost_its_worker cutoff db) (expired_order env)
        db.orders (λ o. refl),
    lost_its_worker-attempt_of cutoff k db o keyed e,
  )
]

expire_leases-Tabled :
    (env : Env) (cutoff : ℕ) (db : Db) → Tabled db → Tabled (expire_leases env cutoff db)
unfolding expire_leases expired_attempt expired_order
expire_leases-Tabled env cutoff db h = record {
  order_ids =
      update_where-UniqueBy (λ o. o.id) _ (expired_order env) db.orders (λ o. refl) h.order_ids;
  attempt_ids =
      update_where-UniqueBy (λ d. d.id) _ (expired_attempt env) db.delivery_attempts (λ d. refl)
        h.attempt_ids;
  attempt_orders =
      update_where-UniqueBy (λ d. d.order_id) _ (expired_attempt env) db.delivery_attempts
        (λ d. refl) h.attempt_orders;
  no_refund = h.no_refund;
}

pub recover_stale_jobs-Keeps :
    {known : ℕ → Memory} (env : Env) (stale_after : ℕ)
    → Keeps (Coherent known) (recover_stale_jobs env stale_after)
unfolding recover_stale_jobs
recover_stale_jobs-Keeps {known} env stale_after = record {
  at = λ db c. OnOk-ok (record {
    keyed = expire_leases-Tabled env (env.now - stale_after) db c.keyed;
    coupled = λ k.
        subst (Coupled (known k))
          (sym (view-expire_leases env (env.now - stale_after) k db c.keyed))
          (expired-Coupled env (env.now - stale_after) (view k db) (c.coupled k));
  });
}

-- `RecoverStaleJobs` keeps the database coherent with what is remembered of it.
pub recover_stale_jobs-Coherent :
    {known : ℕ → Memory} (env : Env) (stale_after : ℕ) (db : Db)
    → Coherent known db
    → OnOk (λ r db'. Coherent known db') (recover_stale_jobs env stale_after db)
recover_stale_jobs-Coherent env stale_after db c =
    (recover_stale_jobs-Keeps env stale_after).at db c

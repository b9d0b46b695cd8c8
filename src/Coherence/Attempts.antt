-- ===== src/Coherence/Attempts.antt =====
-- Updates of a delivery attempt by its id act on the order that the attempt belongs to.

use digital_store.Prelude.{
  ℕ, ◌==◌, Bool, ◌&&◌, none, some, ◌≡◌, ap, ◌∙◌, arith, Option-cases, inl, inr, ◌⊎◌,
  find_where-UniqueBy,
}
use digital_store.Model.{Db, DeliveryAttempt, attempt_of, attempt_by_id, update_attempts}
use digital_store.Model.View.{view, on, map_attempt, view-update_attempts, attempt_of-order_id}
use digital_store.Coherence.Invariant.{Tabled}

module _ {db : Db} (keyed : Tabled db) where
  -- The attempt of an order is found by its id too.
  pub attempt_by_id-attempt_of :
      (o : ℕ) (d : DeliveryAttempt) → attempt_of o db ≡ some d → attempt_by_id d.id db ≡ some d
  unfolding attempt_of attempt_by_id
  attempt_by_id-attempt_of o d e =
      find_where-UniqueBy (λ x. x.id) (λ x. x.order_id == o) db.delivery_attempts d
        keyed.attempt_ids e

  -- Two orders have different attempts.
  pub attempt_of-injective :
      (o k : ℕ) (d d' : DeliveryAttempt)
      → attempt_of o db ≡ some d
      → attempt_of k db ≡ some d'
      → d'.id ≡ d.id
      → o ≡ k
  attempt_of-injective o k d d' e e' same = ground (
    arith,
    attempt_by_id-attempt_of o d e,
    attempt_by_id-attempt_of k d' e',
    ap (λ i. attempt_by_id i db) same,
    attempt_of-order_id o db e,
    attempt_of-order_id k db e',
  )

  pub view-update_attempt :
      (k o : ℕ) (d : DeliveryAttempt) (p : DeliveryAttempt → Bool)
      (f : DeliveryAttempt → DeliveryAttempt)
      → ((x : DeliveryAttempt) → (f x).order_id ≡ x.order_id)
      → attempt_of o db ≡ some d
      → view k (update_attempts (λ x. (x.id == d.id) && p x) f db)
        ≡ on o k (map_attempt p f) (view k db)
  view-update_attempt k o d p f h e =
      view-update_attempts k db (λ x. (x.id == d.id) && p x) f h
      ∙ reached (Option-cases (attempt_of k db))
    where
      reached :
          (attempt_of k db ≡ none) ⊎ ((d' : DeliveryAttempt) × (attempt_of k db ≡ some d'))
          → map_attempt (λ x. (x.id == d.id) && p x) f (view k db)
            ≡ on o k (map_attempt p f) (view k db)
      reached (inl none_there) = ground arith
      reached (inr (d', e')) =
          ground
            (arith, attempt_of-injective o k d d' e e', ap (λ i. attempt_of i db) {x = o} {y = k})

-- ===== src/Delivery/Worker/Waiting.antt =====
-- How many deliveries are due, and that a claim and the report of the job leave fewer of them.
use mathlib.Core.List.{Memᴰ}
use digital_store.Prelude.{
  ℕ, ◌≤◌, ◌<◌, ◌==◌, Bool, true, false, ◌&&◌, some, List, [], ◌∷◌, ◌≡◌, refl, ap, arith, updated,
  count_where, update_where, Bool-cases, inl, inr,
}
use digital_store.Prelude.Rows.{find_where-Memᴰ}
use digital_store.Model.{
  Db, Order, DeliveryAttempt, is_processing, is_delivering, is_claimable, awaits_delivery, Env,
  attempt_of, order_of, update_order, update_attempts,
}
use digital_store.Model.View.{view-update_order}
use digital_store.Delivery.Repository.Claim.{
  is_due, is_candidate, is_claimable_row, processing_row, delivering_row, mark_delivering,
}
use digital_store.Delivery.Repository.Report.{is_processing_row}
use digital_store.Coherence.Invariant.{Memory, Coherent}

module _ {A : Type 0} (p p' q : A → Bool) (f : A → A) where
  -- Where the rows that pass after an update passed before it, no more rows pass than did.
  count_where-update_le :
      (xs : List A)
      → ((x : A) → Memᴰ x xs → p' (updated q f x) ≡ true → p x ≡ true)
      → count_where p' (update_where q f xs) ≤ count_where p xs
  unfolding count_where update_where
  count_where-update_le [] h = ground arith
  count_where-update_le (x ∷ xs) h =
      ground (arith, h x (Memᴰ.head refl), count_where-update_le xs (λ y m. h y (Memᴰ.tail m)))

  -- Fewer pass where one passed before and does not pass after it.
  count_where-update_lt :
      (xs : List A) (a : A)
      → Memᴰ a xs
      → ((x : A) → Memᴰ x xs → p' (updated q f x) ≡ true → p x ≡ true)
      → p a ≡ true
      → p' (updated q f a) ≡ false
      → count_where p' (update_where q f xs) < count_where p xs
  unfolding count_where update_where
  count_where-update_lt [] a m h before after = elim m [ ]
  count_where-update_lt (x ∷ xs) a (Memᴰ.head e) h before after =
      ground (arith, e, before, after, count_where-update_le xs (λ y m. h y (Memᴰ.tail m)))
  count_where-update_lt (x ∷ xs) a (Memᴰ.tail m) h before after = ground (
    arith,
    h x (Memᴰ.head refl),
    count_where-update_lt xs a m (λ y k. h y (Memᴰ.tail k)) before after,
  )

abbrev pub none_locked : ℕ → Bool
none_locked i = false

-- The number of deliveries that are due.
unfoldable pub waiting : ℕ → Db → ℕ
waiting now db = count_where (is_candidate none_locked now db) db.delivery_attempts

module _ (now : ℕ) (env : Env) (d : DeliveryAttempt) (db : Db) where
  abbrev pub claimed : Db
  claimed =
      mark_delivering env d.order_id
        (update_attempts (is_claimable_row d.id) (processing_row env) db)

  still_candidate :
      (x : DeliveryAttempt)
      → is_candidate none_locked now claimed
          (updated (is_claimable_row d.id) (processing_row env) x)
        ≡ true
      → is_candidate none_locked now db x ≡ true
  unfolding is_candidate mark_delivering processing_row is_due update_attempts delivering_row
      order_of
  still_candidate x h = ground (
    arith,
    h,
    ap (λ v. v.order)
        (view-update_order x.order_id d.order_id
          (update_attempts (is_claimable_row d.id) (processing_row env) db)
          (λ o. awaits_delivery o.status) (delivering_row env) (λ o. refl)),
  )

  no_candidate :
      is_candidate none_locked now db d ≡ true
      → is_candidate none_locked now claimed
          (updated (is_claimable_row d.id) (processing_row env) d)
        ≡ false
  unfolding is_candidate processing_row
  no_candidate h = ground (arith, h)

  pub claimed-fewer :
      Memᴰ d db.delivery_attempts
      → is_candidate none_locked now db d ≡ true
      → waiting now claimed < waiting now db
  unfolding waiting mark_delivering update_order update_attempts
  claimed-fewer m can =
      count_where-update_lt (is_candidate none_locked now db) (is_candidate none_locked now claimed)
        (is_claimable_row d.id) (processing_row env) db.delivery_attempts d m
        (λ x k. still_candidate x) can (no_candidate can)

-- A report by `f` on the attempt and by `g` on its order, of an attempt that is processing.
module _ (now : ℕ) {known : ℕ → Memory} {db : Db} (c : Coherent known db) (o i : ℕ)
    (d : DeliveryAttempt) (own : attempt_of o db ≡ some d) (held : is_processing d.status ≡ true)
    (same : d.id ≡ i) (f : DeliveryAttempt → DeliveryAttempt) (g : Order → Order)
    (g_id : (x : Order) → (g x).id ≡ x.id)
    (not_due : (x : DeliveryAttempt)
      → (is_claimable (f x).status && is_due now (f x)) ≡ false) where
  abbrev pub reported_db : Db
  reported_db =
      update_order o (λ x. is_delivering x.status) g (update_attempts (is_processing_row i) f db)

  was_candidate :
      (x : DeliveryAttempt)
      → attempt_of x.order_id db ≡ some x
      → is_candidate none_locked now reported_db (updated (is_processing_row i) f x) ≡ true
      → is_candidate none_locked now db x ≡ true
  unfolding is_candidate update_attempts order_of
  was_candidate x mine h = elim (Bool-cases (o == x.order_id)) [
    | inl here ↦
        let it : x ≡ d = ground (arith, here, mine, own) in
        elim (let never : ⊥ = ground (arith, h, it, held, same, not_due x) in never) [ ]
    | inr there ↦ ground (
      arith,
      h,
      there,
      not_due x,
      ap (λ v. v.order)
          (view-update_order x.order_id o (update_attempts (is_processing_row i) f db)
            (λ y. is_delivering y.status) g g_id),
    )
  ]

  pub reported-no_more : waiting now reported_db ≤ waiting now db
  unfolding waiting update_order update_attempts attempt_of
  reported-no_more =
      count_where-update_le (is_candidate none_locked now db)
        (is_candidate none_locked now reported_db) (is_processing_row i) f db.delivery_attempts
        (λ x m.
          was_candidate x
            (find_where-Memᴰ (λ y. y.order_id) x db.delivery_attempts c.keyed.attempt_orders m))

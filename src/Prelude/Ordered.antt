-- ===== src/Prelude/Ordered.antt =====
-- Sorted tables: a selection of a sorted table is sorted, and what comes after its n-th row is the
-- rest of it.
use mathlib.Core.Path.{◌≡◌, refl, ◌∙◌}
use mathlib.Core.Logic.{inl, inr}
use mathlib.Core.Bool.{Bool, true, false, not, ◌&&◌, ◌||◌}
use mathlib.Core.List.{List, [], ◌∷◌, map}
use native.Mathlib.Omega.{arith}
use digital_store.Prelude.Tests.{Bool-cases}
use digital_store.Prelude.Tables.{any_where, select_where, insert_by, sort_by, any_where_mono}

module _ {A : Type 0} where
  pub any_where-insert_by :
      (le : A → A → Bool) (p : A → Bool) (a : A) (xs : List A)
      → any_where p (insert_by le a xs) ≡ (p a || any_where p xs)
  unfolding any_where insert_by
  any_where-insert_by le p a [] = refl
  any_where-insert_by le p a (x ∷ xs) = ground (arith, any_where-insert_by le p a xs)

  pub any_where-sort_by :
      (le : A → A → Bool) (p : A → Bool) (xs : List A)
      → any_where p (sort_by le xs) ≡ any_where p xs
  unfolding any_where sort_by
  any_where-sort_by le p [] = refl
  any_where-sort_by le p (x ∷ xs) =
      ground (arith, any_where-insert_by le p x (sort_by le xs), any_where-sort_by le p xs)

  pub any_where-selected :
      (p q : A → Bool) (xs : List A)
      → any_where q xs ≡ false
      → any_where q (select_where p xs) ≡ false
  unfolding any_where select_where
  any_where-selected p q [] h = refl
  any_where-selected p q (x ∷ xs) h = ground (arith, h, any_where-selected p q xs)

  pub select_where-all :
      (p : A → Bool) (xs : List A) → any_where (λ x. not (p x)) xs ≡ false → select_where p xs ≡ xs
  unfolding any_where select_where
  select_where-all p [] h = refl
  select_where-all p (x ∷ xs) h = ground (arith, h, select_where-all p xs)

  -- A narrower selection of a selection is a selection.
  pub select_where-narrow :
      (p q : A → Bool) (xs : List A)
      → ((x : A) → p x ≡ true → q x ≡ true)
      → select_where p (select_where q xs) ≡ select_where p xs
  unfolding select_where
  select_where-narrow p q [] h = refl
  select_where-narrow p q (x ∷ xs) h = ground (arith, h x, select_where-narrow p q xs h)

  pub select_where-both :
      (p q : A → Bool) (xs : List A)
      → select_where (λ x. p x && q x) xs ≡ select_where q (select_where p xs)
  unfolding select_where
  select_where-both p q [] = refl
  select_where-both p q (x ∷ xs) = ground (arith, select_where-both p q xs)

  pub select_where-map :
      {B : Type 0} (f : A → B) (p : B → Bool) (xs : List A)
      → select_where p (map f xs) ≡ map f (select_where (λ x. p (f x)) xs)
  unfolding select_where
  select_where-map f p [] = refl
  select_where-map f p (x ∷ xs) = ground (arith, select_where-map f p xs)

  pub any_where-map :
      {B : Type 0} (f : A → B) (p : B → Bool) (xs : List A)
      → any_where p (map f xs) ≡ any_where (λ x. p (f x)) xs
  unfolding any_where
  any_where-map f p [] = refl
  any_where-map f p (x ∷ xs) = ground (arith, any_where-map f p xs)

  module _ (le : A → A → Bool) where
    -- Each row comes before those that follow.
    abbrev pub Ordered : List A → Type 0
    Ordered [] = Unit {0}
    Ordered (x ∷ xs) = (any_where (λ y. not (le x y)) xs ≡ false) × Ordered xs

    -- No row comes before one that it follows.
    abbrev pub Strict : List A → Type 0
    Strict [] = Unit {0}
    Strict (x ∷ xs) = (any_where (λ y. le y x) xs ≡ false) × Strict xs

    insert_by-front :
        (a : A) (xs : List A)
        → any_where (λ y. not (le a y)) xs ≡ false
        → insert_by le a xs ≡ a ∷ xs
    unfolding insert_by any_where
    insert_by-front a [] h = refl
    insert_by-front a (x ∷ xs) h = ground (arith, h)

    insert_by-dropped :
        (q : A → Bool) (a : A) (xs : List A)
        → q a ≡ false
        → select_where q (insert_by le a xs) ≡ select_where q xs
    unfolding insert_by select_where
    insert_by-dropped q a [] h = ground (arith, h)
    insert_by-dropped q a (x ∷ xs) h = ground (arith, h, insert_by-dropped q a xs)

    module _ (total : (a b : A) → (le a b || le b a) ≡ true)
        (trans : (a b c : A) → le a b ≡ true → le b c ≡ true → le a c ≡ true) where
      all_after :
          (a x : A) (xs : List A)
          → le a x ≡ true
          → any_where (λ y. not (le x y)) xs ≡ false
          → any_where (λ y. not (le a y)) xs ≡ false
      all_after a x xs h k =
          any_where_mono (λ y. not (le x y)) (λ y. not (le a y)) xs
            (λ y n. ground (arith, n, h, trans a x y h)) k

      insert_by-Ordered : (a : A) (xs : List A) → Ordered xs → Ordered (insert_by le a xs)
      unfolding insert_by any_where
      insert_by-Ordered a [] h = (refl, tt)
      insert_by-Ordered a (x ∷ xs) (h, k) = elim (Bool-cases (le a x)) [
        | inl e ↦ rw e (ground (arith, e, all_after a x xs e h), (h, k))
        | inr e ↦ rw e (
          ground (arith, e, h, total a x, any_where-insert_by le (λ y. not (le x y)) a xs),
          insert_by-Ordered a xs k,
        )
      ]

      pub sort_by-Ordered : (xs : List A) → Ordered (sort_by le xs)
      unfolding sort_by
      sort_by-Ordered [] = tt
      sort_by-Ordered (x ∷ xs) = insert_by-Ordered x (sort_by le xs) (sort_by-Ordered xs)

      insert_by-selected :
          (q : A → Bool) (a : A) (xs : List A)
          → Ordered xs
          → q a ≡ true
          → insert_by le a (select_where q xs) ≡ select_where q (insert_by le a xs)
      unfolding insert_by select_where
      insert_by-selected q a [] o h = ground (arith, h)
      insert_by-selected q a (x ∷ xs) (k, o) h = elim (Bool-cases (le a x)) [
        | inl e ↦ ground (
          arith,
          e,
          h,
          insert_by-front a (select_where q xs)
              (any_where-selected q (λ y. not (le a y)) xs (all_after a x xs e k)),
        )
        | inr e ↦ ground (arith, e, h, insert_by-selected q a xs o h)
      ]

      -- `ORDER BY` after `WHERE`, or before it.
      pub sort_by-select_where :
          (q : A → Bool) (xs : List A)
          → sort_by le (select_where q xs) ≡ select_where q (sort_by le xs)
      unfolding sort_by select_where
      sort_by-select_where q [] = refl
      sort_by-select_where q (x ∷ xs) = elim (Bool-cases (q x)) [
        | inl e ↦ ground (
          arith,
          e,
          sort_by-select_where q xs,
          insert_by-selected q x (sort_by le xs) (sort_by-Ordered xs) e,
        )
        | inr e ↦
            ground (arith, e, sort_by-select_where q xs, insert_by-dropped q x (sort_by le xs) e)
      ]

  pub any_where-or :
      (p q : A → Bool) (xs : List A)
      → any_where p xs ≡ false
      → any_where q xs ≡ false
      → any_where (λ x. p x || q x) xs ≡ false
  unfolding any_where
  any_where-or p q [] h k = refl
  any_where-or p q (x ∷ xs) h k = ground (arith, h, k, any_where-or p q xs)

  -- No selected row fails the test.
  pub any_where-unselected :
      (p : A → Bool) (xs : List A) → any_where (λ x. not (p x)) (select_where p xs) ≡ false
  unfolding any_where select_where
  any_where-unselected p [] = refl
  any_where-unselected p (x ∷ xs) = ground (arith, any_where-unselected p xs)

  module _ (same : A → A → Bool) where
    -- No row is the same as one that it follows.
    abbrev pub Distinct : List A → Type 0
    Distinct [] = Unit {0}
    Distinct (x ∷ xs) = (any_where (λ y. same y x) xs ≡ false) × Distinct xs

    pub select_where-Distinct :
        (p : A → Bool) (xs : List A) → Distinct xs → Distinct (select_where p xs)
    unfolding select_where
    select_where-Distinct p [] d = tt
    select_where-Distinct p (x ∷ xs) (h, d) = elim (Bool-cases (p x)) [
      | inl e ↦ rw e (any_where-selected p (λ y. same y x) xs h, select_where-Distinct p xs d)
      | inr e ↦ rw e (select_where-Distinct p xs d)
    ]

    module _ (le : A → A → Bool) where
      insert_by-Distinct :
          ((x y : A) → same x y ≡ same y x)
          → (a : A) (xs : List A) → any_where (λ y. same y a) xs ≡ false
          → Distinct xs
          → Distinct (insert_by le a xs)
      unfolding insert_by any_where
      insert_by-Distinct comm a [] h d = (refl, tt)
      insert_by-Distinct comm a (x ∷ xs) h (k, d) = elim (Bool-cases (le a x)) [
        | inl e ↦ rw e (h, (k, d))
        | inr e ↦ rw e (
          ground (arith, h, k, comm a x, any_where-insert_by le (λ y. same y x) a xs),
          insert_by-Distinct comm a xs (ground (arith, h)) d,
        )
      ]

      pub sort_by-Distinct :
          ((x y : A) → same x y ≡ same y x) → (xs : List A) → Distinct xs → Distinct (sort_by le xs)
      unfolding sort_by
      sort_by-Distinct comm [] d = tt
      sort_by-Distinct comm (x ∷ xs) (h, d) =
          insert_by-Distinct comm x (sort_by le xs) (any_where-sort_by le (λ y. same y x) xs ∙ h)
            (sort_by-Distinct comm xs d)

      -- An order of distinct rows is strict.
      pub Ordered-Strict :
          ((x y : A) → le x y ≡ true → le y x ≡ true → same y x ≡ true)
          → (xs : List A) → Ordered le xs
          → Distinct xs
          → Strict le xs
      Ordered-Strict antisym [] o d = tt
      Ordered-Strict antisym (x ∷ xs) (h, o) (k, d) = (
        any_where_mono (λ y. not (le x y) || same y x) (λ y. le y x) xs
            (λ y n. ground (arith, n, antisym x y))
            (any_where-or (λ y. not (le x y)) (λ y. same y x) xs h k),
        Ordered-Strict antisym xs o d,
      )

-- ===== src/Prelude/Sorting.antt =====
-- What `ORDER BY … LIMIT 1` returns: a row that comes before every other.
use mathlib.Core.Path.{◌≡◌, sym, subst, refl}
use mathlib.Core.Logic.{inl, inr}
use mathlib.Core.Bool.{Bool, true, false, not, ◌&&◌, ◌||◌}
use mathlib.Core.Option.{Option, none, some}
use mathlib.Core.List.{List, [], ◌∷◌, Memᴰ}
use native.Mathlib.Omega.{arith}
use digital_store.Prelude.Tests.{if◌then◌else◌, Bool-cases, Option-cases}
use digital_store.Prelude.Tables.{
  any_where, select_where, update_where, insert_by, sort_by, any_where_mono,
}

module _ {ℓ} {A : Type ℓ} where
  abbrev pub first : List A → Option A
  first [] = none
  first (x ∷ xs) = some x

  abbrev pub earlier : (A → A → Bool) → A → Option A → A
  earlier le x none = x
  earlier le x (some y) = if le x y then x else y

  first-insert_by :
      (le : A → A → Bool) (x : A) (xs : List A)
      → first (insert_by le x xs) ≡ some (earlier le x (first xs))
  unfolding insert_by
  first-insert_by le x [] = refl
  first-insert_by le x (y ∷ xs) = ground arith

  module _ (le : A → A → Bool) (total : (a b : A) → (le a b || le b a) ≡ true)
      (trans : (a b c : A) → le a b ≡ true → le b c ≡ true → le a c ≡ true) where
    total_self : (x : A) → le x x ≡ true
    total_self x = ground (arith, total x x)

    before : (b x : A) → le x b ≡ false → le b x ≡ true
    before b x h = ground (arith, h, total x b)

    later : (x b : A) → le x b ≡ true → (y : A) → not (le x y) ≡ true → not (le b y) ≡ true
    later x b k y h = ground (arith, k, h, trans x b y k)

    least :
        (a x : A) (xs : List A)
        → le a x ≡ true
        → any_where (λ y. not (le a y)) xs ≡ false
        → any_where (λ y. not (le a y)) (x ∷ xs) ≡ false
    unfolding any_where
    least a x xs h k = ground (arith, h, k)

    pub no_first : (xs : List A) → first (sort_by le xs) ≡ none → xs ≡ []
    unfolding sort_by
    no_first [] h = refl
    no_first (x ∷ xs) h = ground (arith, h, first-insert_by le x (sort_by le xs))

    -- The first row of the sorted table comes before every row.
    pub first-sort_by :
        (xs : List A) (a : A)
        → first (sort_by le xs) ≡ some a
        → any_where (λ y. not (le a y)) xs ≡ false
    unfolding sort_by any_where
    first-sort_by [] a h = refl
    first-sort_by (x ∷ xs) a h = elim (Option-cases (first (sort_by le xs))) [
      | inl e ↦
          let a_is : a ≡ x = ground (arith, h, e, first-insert_by le x (sort_by le xs)) in
          ground (arith, a_is, total x x, no_first xs e)
      | inr (b, e) ↦
          let rest : any_where (λ y. not (le b y)) xs ≡ false = first-sort_by xs b e in
          elim (Bool-cases (le x b)) [
            | inl k ↦
                let a_is : a ≡ x = ground (arith, h, e, k, first-insert_by le x (sort_by le xs)) in
                subst (λ c. any_where (λ y. not (le c y)) (x ∷ xs) ≡ false) (sym a_is)
                  (least x x xs (total_self x)
                    (any_where_mono (λ y. not (le b y)) (λ y. not (le x y)) xs (later x b k) rest))
            | inr k ↦
                let a_is : a ≡ b = ground (arith, h, e, k, first-insert_by le x (sort_by le xs)) in
                subst (λ c. any_where (λ y. not (le c y)) (x ∷ xs) ≡ false) (sym a_is)
                  (least b x xs (before b x k) rest)
          ]
    ]

  pub any_where-select_where :
      (p q : A → Bool) (xs : List A)
      → any_where q (select_where p xs) ≡ any_where (λ x. p x && q x) xs
  unfolding any_where select_where
  any_where-select_where p q [] = refl
  any_where-select_where p q (x ∷ xs) = ground (arith, any_where-select_where p q xs)

  pub any_where-each :
      (p : A → Bool) (xs : List A) → ((x : A) → Memᴰ x xs → p x ≡ false) → any_where p xs ≡ false
  unfolding any_where
  any_where-each p [] h = refl
  any_where-each p (x ∷ xs) h =
      let here = h x (Memᴰ.head refl) in
      let rest = any_where-each p xs (λ y m. h y (Memᴰ.tail m)) in ground (arith, here, rest)

  -- An update that mends each row that it reaches leaves no bad row.
  pub any_where-mended :
      (q p : A → Bool) (f : A → A) (xs : List A)
      → ((x : A) → p x ≡ true → q (f x) ≡ false)
      → ((x : A) → p x ≡ false → q x ≡ false)
      → any_where q (update_where p f xs) ≡ false
  unfolding any_where update_where
  any_where-mended q p f [] h k = refl
  any_where-mended q p f (x ∷ xs) h k = ground (arith, h x, k x, any_where-mended q p f xs h k)

  pub first-Memᴰ : (x : A) (xs : List A) → first xs ≡ some x → Memᴰ x xs
  first-Memᴰ x [] h = cc
  first-Memᴰ x (y ∷ xs) h = Memᴰ.head (ground arith)

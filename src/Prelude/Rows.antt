-- ===== src/Prelude/Rows.antt =====
-- The rows of a table as members of the list: what a `SELECT … ORDER BY` returns is a row of the
-- table, and a unique key finds it.
use mathlib.Core.Path.{◌≡◌, refl, ap, ◌∙◌}
use mathlib.Core.Logic.{inl, inr}
use mathlib.Core.Bool.{Bool, true, false, ◌&&◌}
use mathlib.Core.Option.{Option, none, some}
use mathlib.Core.List.{List, [], ◌∷◌, Memᴰ}
use Prim.Native.Nat.{ℕ, suc}
use native.Mathlib.Omega.{arith}
use digital_store.Prelude.Tests.{◌==◌, if◌then◌else◌, option_any, Option-cases}
use digital_store.Prelude.Tables.{
  find_where, any_where, count_where, select_where, length, update_where, insert_by, sort_by,
  UniqueBy, any_where-false, find_where-UniqueBy, any_where-find_where,
}

module _ {ℓ} {A : Type ℓ} where
  pub select_where-Memᴰ :
      (p : A → Bool) (a : A) (xs : List A) → Memᴰ a (select_where p xs) → Memᴰ a xs × (p a ≡ true)
  unfolding select_where
  select_where-Memᴰ p a [] h = elim h [ ]
  select_where-Memᴰ p a (x ∷ xs) h = go (p x) refl h (select_where-Memᴰ p a xs)
    where
      later : Memᴰ a xs × (p a ≡ true) → Memᴰ a (x ∷ xs) × (p a ≡ true)
      later (m, e) = (Memᴰ.tail m, e)

      first :
          p x ≡ true
          → Memᴰ a (x ∷ select_where p xs)
          → (Memᴰ a (select_where p xs) → Memᴰ a xs × (p a ≡ true))
          → Memᴰ a (x ∷ xs) × (p a ≡ true)
      first e (Memᴰ.head q) f = (Memᴰ.head q, ap p q ∙ e)
      first e (Memᴰ.tail m) f = later (f m)

      go :
          (b : Bool)
          → p x ≡ b
          → Memᴰ a (if b then x ∷ select_where p xs else select_where p xs)
          → (Memᴰ a (select_where p xs) → Memᴰ a xs × (p a ≡ true))
          → Memᴰ a (x ∷ xs) × (p a ≡ true)
      go true e m f = first e m f
      go false e m f = later (f m)

  insert_by-Memᴰ :
      (le : A → A → Bool) (a x : A) (xs : List A) → Memᴰ a (insert_by le x xs) → Memᴰ a (x ∷ xs)
  unfolding insert_by
  insert_by-Memᴰ le a x [] h = h
  insert_by-Memᴰ le a x (y ∷ xs) h = go (le x y) h (insert_by-Memᴰ le a x xs)
    where
      swap : Memᴰ a (x ∷ xs) → Memᴰ a (x ∷ y ∷ xs)
      swap (Memᴰ.head e) = Memᴰ.head e
      swap (Memᴰ.tail m) = Memᴰ.tail (Memᴰ.tail m)

      later :
          Memᴰ a (y ∷ insert_by le x xs)
          → (Memᴰ a (insert_by le x xs) → Memᴰ a (x ∷ xs))
          → Memᴰ a (x ∷ y ∷ xs)
      later (Memᴰ.head e) f = Memᴰ.tail (Memᴰ.head e)
      later (Memᴰ.tail m) f = swap (f m)

      go :
          (b : Bool)
          → Memᴰ a (if b then x ∷ y ∷ xs else y ∷ insert_by le x xs)
          → (Memᴰ a (insert_by le x xs) → Memᴰ a (x ∷ xs))
          → Memᴰ a (x ∷ y ∷ xs)
      go true m f = m
      go false m f = later m f

  pub sort_by-Memᴰ : (le : A → A → Bool) (a : A) (xs : List A) → Memᴰ a (sort_by le xs) → Memᴰ a xs
  unfolding sort_by
  sort_by-Memᴰ le a [] h = h
  sort_by-Memᴰ le a (x ∷ xs) h =
      rest (insert_by-Memᴰ le a x (sort_by le xs) h) (sort_by-Memᴰ le a xs)
    where
      rest : Memᴰ a (x ∷ sort_by le xs) → (Memᴰ a (sort_by le xs) → Memᴰ a xs) → Memᴰ a (x ∷ xs)
      rest (Memᴰ.head e) f = Memᴰ.head e
      rest (Memᴰ.tail m) f = Memᴰ.tail (f m)

  -- A unique key finds every row.
  pub find_where-Memᴰ :
      (key : A → ℕ) (a : A) (xs : List A)
      → UniqueBy key xs
      → Memᴰ a xs
      → find_where (λ y. key y == key a) xs ≡ some a
  unfolding find_where
  find_where-Memᴰ key a [] u m = elim m [ ]
  find_where-Memᴰ key a (x ∷ xs) u (Memᴰ.head e) = ground arith
  find_where-Memᴰ key a (x ∷ xs) u (Memᴰ.tail m) =
      let found = find_where-Memᴰ key a xs u.1 m in
      ground (arith, found, any_where-false (λ y. key y == key x) _ xs {x = a} u.0 found)

  -- Under a unique key, a test that fails on every row that the key finds holds of no row.
  pub any_where-none :
      (key : A → ℕ) (p : A → Bool) (xs : List A)
      → UniqueBy key xs
      → ((x : A) → find_where (λ y. key y == key x) xs ≡ some x → p x ≡ false)
      → any_where p xs ≡ false
  any_where-none key p xs u h = elim (Option-cases (find_where p xs)) [
    | inl e ↦ any_where-find_where p xs ∙ ap (option_any p) e
    | inr (x, e) ↦
        any_where-find_where p xs ∙ ap (option_any p) e ∙ h x (find_where-UniqueBy key p xs x u e)
  ]

  pub select_where-none :
      (p : A → Bool) (xs : List A) → any_where p xs ≡ false → select_where p xs ≡ []
  unfolding select_where any_where
  select_where-none p [] h = refl
  select_where-none p (x ∷ xs) h = ground (arith, select_where-none p xs)

  pub count_where-none :
      (p : A → Bool) (xs : List A) → any_where p xs ≡ false → count_where p xs ≡ 0
  unfolding count_where any_where
  count_where-none p [] h = refl
  count_where-none p (x ∷ xs) h = ground (arith, count_where-none p xs)

  pub update_where-none :
      (p : A → Bool) (f : A → A) (xs : List A) → any_where p xs ≡ false → update_where p f xs ≡ xs
  unfolding update_where any_where
  update_where-none p f [] h = refl
  update_where-none p f (x ∷ xs) h = ground (arith, update_where-none p f xs)

  -- A value that may be there, as a list.
  abbrev pub listed : Option A → List A
  listed none = []
  listed (some x) = x ∷ []

  any_where-none-found :
      (key : A → ℕ) (k : ℕ) (x : A) (xs : List A)
      → any_where (λ y. key y == key x) xs ≡ false
      → key x ≡ k
      → select_where (λ y. key y == k) xs ≡ []
  unfolding select_where any_where
  any_where-none-found key k x [] h e = refl
  any_where-none-found key k x (y ∷ xs) h e = ground (arith, any_where-none-found key k x xs)

  -- Under a unique key, two tests that agree on every row that the key finds count the same rows.
  pub count_where-same :
      (key : A → ℕ) (p q : A → Bool) (xs : List A)
      → UniqueBy key xs
      → ((x : A) → find_where (λ y. key y == key x) xs ≡ some x → p x ≡ q x)
      → count_where p xs ≡ count_where q xs
  unfolding count_where find_where
  count_where-same key p q [] u h = refl
  count_where-same key p q (x ∷ xs) u h =
      let rest = count_where-same key p q xs u.1 (λ y e.
        h y (ground (arith, e, any_where-false (λ z. key z == key x) _ xs {x = y} u.0 e))) in
      let here : p x ≡ q x = h x (ground arith) in ground (arith, rest, here)

  -- ... and the rows that the key selects are the one that it finds.
  pub select_where-UniqueBy :
      (key : A → ℕ) (k : ℕ) (xs : List A)
      → UniqueBy key xs
      → select_where (λ y. key y == k) xs ≡ listed (find_where (λ y. key y == k) xs)
  unfolding select_where find_where
  select_where-UniqueBy key k [] u = refl
  select_where-UniqueBy key k (x ∷ xs) u =
      ground (arith, select_where-UniqueBy key k xs u.1, any_where-none-found key k x xs u.0)

  length-insert_by :
      (le : A → A → Bool) (x : A) (xs : List A) → length (insert_by le x xs) ≡ suc (length xs)
  unfolding insert_by length
  length-insert_by le x [] = refl
  length-insert_by le x (y ∷ xs) = ground (arith, length-insert_by le x xs)

  pub length-sort_by : (le : A → A → Bool) (xs : List A) → length (sort_by le xs) ≡ length xs
  unfolding sort_by length
  length-sort_by le [] = refl
  length-sort_by le (x ∷ xs) = length-insert_by le x (sort_by le xs) ∙ ap suc (length-sort_by le xs)

  pub length-select_where :
      (p : A → Bool) (xs : List A) → length (select_where p xs) ≡ count_where p xs
  unfolding select_where count_where length
  length-select_where p [] = refl
  length-select_where p (x ∷ xs) = ground (arith, length-select_where p xs)

  not_found :
      (key : A → ℕ) (k : ℕ) (x : A) (xs : List A)
      → any_where (λ y. key y == key x) xs ≡ false
      → key x ≡ k
      → find_where (λ y. key y == k) xs ≡ none
  unfolding find_where any_where
  not_found key k x [] h e = refl
  not_found key k x (y ∷ xs) h e = ground (arith, not_found key k x xs)

  -- ... and how often a further condition holds can be read off that one.
  pub count_where-UniqueBy :
      (key : A → ℕ) (k : ℕ) (p : A → Bool) (xs : List A)
      → UniqueBy key xs
      → count_where (λ y. (key y == k) && p y) xs
        ≡ (if option_any p (find_where (λ y. key y == k) xs) then 1 else 0)
  unfolding count_where find_where
  count_where-UniqueBy key k p [] u = refl
  count_where-UniqueBy key k p (x ∷ xs) u =
      ground (arith, count_where-UniqueBy key k p xs u.1, not_found key k x xs u.0)

  pub select_where-none_left :
      (p : A → Bool) (xs : List A) → select_where p xs ≡ [] → any_where p xs ≡ false
  unfolding select_where any_where
  select_where-none_left p [] h = refl
  select_where-none_left p (x ∷ xs) h = ground (arith, select_where-none_left p xs)

  -- A row that passes the test is there where it passes the test.
  pub any_where-Memᴰ :
      (p : A → Bool) (a : A) (xs : List A) → Memᴰ a xs → p a ≡ true → any_where p xs ≡ true
  unfolding any_where
  any_where-Memᴰ p a [] m h = elim m [ ]
  any_where-Memᴰ p a (x ∷ xs) (Memᴰ.head e) h = ground (arith, e, h)
  any_where-Memᴰ p a (x ∷ xs) (Memᴰ.tail m) h = ground (arith, any_where-Memᴰ p a xs m h)

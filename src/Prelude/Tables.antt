-- ===== src/Prelude/Tables.antt =====
-- A table as a list of its rows in no particular order, and the SQL statements over one table:
-- a search, `UPDATE … WHERE`, `count(*)`, `EXISTS` and the rows of a `SELECT`.
use Prim.Native.Nat.{ℕ, suc}
use mathlib.Core.Path.{◌≡◌, refl, ap, ◌∙◌}
use mathlib.Core.Bool.{Bool, true, false, not, ◌||◌, ◌&&◌}
use mathlib.Core.Option.{Option, none, some}
use mathlib.Core.Option
use mathlib.Core.List.{List, [], ◌∷◌}
use native.Mathlib.Omega.{arith}
use digital_store.Prelude.Tests.{if◌then◌else◌, ◌==◌, option_any, is_some}

module _ {ℓ} {A : Type ℓ} where
  unfoldable pub find_where : (A → Bool) → List A → Option A
  find_where p [] = none
  find_where p (x ∷ xs) = if p x then some x else find_where p xs

  unfoldable pub any_where : (A → Bool) → List A → Bool
  any_where p [] = false
  any_where p (x ∷ xs) = p x || any_where p xs

  unfoldable pub count_where : (A → Bool) → List A → ℕ
  count_where p [] = 0
  count_where p (x ∷ xs) = let n = count_where p xs in if p x then suc n else n

  unfoldable pub update_where : (A → Bool) → (A → A) → List A → List A
  update_where p f [] = []
  update_where p f (x ∷ xs) = (if p x then f x else x) ∷ update_where p f xs

  unfoldable pub select_where : (A → Bool) → List A → List A
  select_where p [] = []
  select_where p (x ∷ xs) = let rest = select_where p xs in if p x then x ∷ rest else rest

  unfoldable pub length : List A → ℕ
  length [] = 0
  length (x ∷ xs) = suc (length xs)

  -- `ORDER BY`, for a comparison that holds of equal rows
  unfoldable pub insert_by : (A → A → Bool) → A → List A → List A
  insert_by le a [] = a ∷ []
  insert_by le a (x ∷ xs) = let rest = insert_by le a xs in if le a x then a ∷ x ∷ xs else x ∷ rest

  unfoldable pub sort_by : (A → A → Bool) → List A → List A
  unfolding insert_by
  sort_by le [] = []
  sort_by le (x ∷ xs) = insert_by le x (sort_by le xs)

  -- the update of one row
  abbrev pub updated : (A → Bool) → (A → A) → A → A
  updated p f x = if p x then f x else x

  pub find_where-holds :
      (p : A → Bool) (xs : List A) {x : A} → find_where p xs ≡ some x → p x ≡ true
  unfolding find_where
  find_where-holds p [] h = cc
  find_where-holds p (x ∷ xs) {x = y} h = ground (arith, find_where-holds p xs {x = y})

  -- An update that leaves the searched columns alone is seen through the search.
  pub find_where-update_where :
      (q p : A → Bool) (f : A → A) (xs : List A)
      → ((x : A) → q (f x) ≡ q x)
      → find_where q (update_where p f xs) ≡ Option.map (updated p f) (find_where q xs)
  unfolding find_where update_where
  find_where-update_where q p f [] h = refl
  find_where-update_where q p f (x ∷ xs) h = ground (arith, h x, find_where-update_where q p f xs h)

  -- An update `WHERE key = $1 AND …` reaches the row that the key finds.
  pub find_where-update_key :
      (key : A → ℕ) (k id : ℕ) (p : A → Bool) (f : A → A) (xs : List A)
      → ((x : A) → key (f x) ≡ key x)
      → find_where (λ x. key x == k) (update_where (λ x. (key x == id) && p x) f xs) ≡ (
          if id == k
          then Option.map (updated p f) (find_where (λ x. key x == k) xs)
          else find_where (λ x. key x == k) xs)
  unfolding find_where update_where
  find_where-update_key key k id p f [] h = ground arith
  find_where-update_key key k id p f (x ∷ xs) h =
      ground (arith, h x, find_where-update_key key k id p f xs h)

  pub count_where-update_where :
      (q p : A → Bool) (f : A → A) (xs : List A)
      → ((x : A) → q (f x) ≡ q x)
      → count_where q (update_where p f xs) ≡ count_where q xs
  unfolding count_where update_where
  count_where-update_where q p f [] h = refl
  count_where-update_where q p f (x ∷ xs) h =
      ground (arith, h x, count_where-update_where q p f xs h)

  pub any_where-update_where :
      (q p : A → Bool) (f : A → A) (xs : List A)
      → ((x : A) → q (f x) ≡ q x)
      → any_where q (update_where p f xs) ≡ any_where q xs
  unfolding any_where update_where
  any_where-update_where q p f [] h = refl
  any_where-update_where q p f (x ∷ xs) h = ground (arith, h x, any_where-update_where q p f xs h)

  -- A search fails exactly where no row passes the test.
  pub any_where-find_where :
      (p : A → Bool) (xs : List A) → any_where p xs ≡ option_any p (find_where p xs)
  unfolding any_where find_where
  any_where-find_where p [] = refl
  any_where-find_where p (x ∷ xs) = ground (arith, any_where-find_where p xs)

  pub any_where-is_some : (p : A → Bool) (xs : List A) → any_where p xs ≡ is_some (find_where p xs)
  unfolding any_where find_where
  any_where-is_some p [] = refl
  any_where-is_some p (x ∷ xs) = ground (arith, any_where-is_some p xs)

  -- `EXISTS` is a count that is not 0.
  pub any_where-count_where :
      (p : A → Bool) (xs : List A) → any_where p xs ≡ not (count_where p xs == 0)
  unfolding any_where count_where
  any_where-count_where p [] = refl
  any_where-count_where p (x ∷ xs) = ground (arith, any_where-count_where p xs)

  pub any_where-false :
      (p : A → Bool) (q : A → Bool) (xs : List A) {x : A}
      → any_where p xs ≡ false
      → find_where q xs ≡ some x
      → p x ≡ false
  unfolding any_where find_where
  any_where-false p q [] u h = cc
  any_where-false p q (x ∷ xs) {x = y} u h = ground (arith, any_where-false p q xs {x = y})

  pub any_where_mono :
      (p q : A → Bool) (xs : List A)
      → ((x : A) → q x ≡ true → p x ≡ true)
      → any_where p xs ≡ false
      → any_where q xs ≡ false
  unfolding any_where
  any_where_mono p q [] h u = refl
  any_where_mono p q (x ∷ xs) h u = ground (arith, h x, any_where_mono p q xs h)

  -- `UNIQUE (key)`
  abbrev pub UniqueBy : (A → ℕ) → List A → Type 0
  UniqueBy key [] = Unit {0}
  UniqueBy key (x ∷ xs) = (any_where (λ y. key y == key x) xs ≡ false) × UniqueBy key xs

  pub update_where-UniqueBy :
      (key : A → ℕ) (p : A → Bool) (f : A → A) (xs : List A)
      → ((x : A) → key (f x) ≡ key x)
      → UniqueBy key xs
      → UniqueBy key (update_where p f xs)
  unfolding update_where
  update_where-UniqueBy key p f [] h u = tt
  update_where-UniqueBy key p f (x ∷ xs) h u = (
    any_where-update_where _ p f xs (λ y. rw (h y, same))
        ∙ ap (λ k. any_where (λ y. key y == k) xs) same
        ∙ u.0,
    update_where-UniqueBy key p f xs h u.1,
  )
    where
      same : key (updated p f x) ≡ key x
      same = ground (arith, h x)

  -- In a table with a unique key, the row that a search by another column finds is the row that
  -- the key finds.
  pub find_where-UniqueBy :
      (key : A → ℕ) (p : A → Bool) (xs : List A) (x : A)
      → UniqueBy key xs
      → find_where p xs ≡ some x
      → find_where (λ y. key y == key x) xs ≡ some x
  unfolding find_where
  find_where-UniqueBy key p [] x u h = cc
  find_where-UniqueBy key p (y ∷ xs) x u h = ground (
    arith,
    any_where-false (λ z. key z == key y) p xs {x = x} u.0,
    find_where-UniqueBy key p xs x u.1,
  )

  -- ... and a further condition on the unique row can be tested on the row found.
  pub any_where-UniqueBy :
      (key : A → ℕ) (k : ℕ) (p : A → Bool) (xs : List A)
      → UniqueBy key xs
      → any_where (λ y. (key y == k) && p y) xs ≡ option_any p (find_where (λ y. key y == k) xs)
  unfolding find_where any_where
  any_where-UniqueBy key k p [] u = refl
  any_where-UniqueBy key k p (y ∷ xs) u = ground (
    arith,
    any_where_mono (λ z. key z == key y) (λ z. (key z == k) && p z) xs,
    any_where-UniqueBy key k p xs u.1,
  )

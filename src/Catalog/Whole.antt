-- ===== src/Catalog/Whole.antt =====
-- The rows of the whole catalog, and what is left of them after a page.
use text.Mathlib.TextEquality.{eq_iff}
use digital_store.Prelude.{
  ℕ, zero, suc, ◌-◌, ◌≤◌, ltb, str_eq, Bool, true, false, not, ◌||◌, String, List, [], ◌∷◌, ◌++◌,
  map, length, any_where, any_where_mono, select_where, sort_by, ◌≡◌, refl, sym, ap, ◌∙◌, arith,
}
use digital_store.Prelude.Ordered.{
  Strict, sort_by-Ordered, sort_by-select_where, select_where-all, select_where-both,
  select_where-map, any_where-map, any_where-sort_by, any_where-selected, Distinct,
  select_where-Distinct, sort_by-Distinct, Ordered-Strict,
}
use digital_store.Model.{Db, Platform, Product}
use digital_store.Catalog.{Inventory, Item, take, item_of, is_listed, rows_after, last_sku}

str_eq_comm : (s t : String) → str_eq s t ≡ str_eq t s
str_eq_comm s t = ground (arith, eq_iff s t, eq_iff t s)

unfoldable pub drop : {A : Type 0} → ℕ → List A → List A
drop zero xs = xs
drop (suc n) [] = []
drop (suc n) (x ∷ xs) = drop n xs

pub take-drop : {A : Type 0} (n : ℕ) (xs : List A) → take n xs ++ drop n xs ≡ xs
unfolding take drop
take-drop zero xs = refl
take-drop (suc n) [] = refl
take-drop (suc n) (x ∷ xs) = ap (◌∷◌ x) (take-drop n xs)

pub take-short :
    {A : Type 0} (n : ℕ) (xs : List A) → ltb n (length xs) ≡ false → take n xs ++ [] ≡ xs
unfolding take length
take-short zero [] h = refl
take-short zero (x ∷ xs) h = ground (arith, h)
take-short (suc n) [] h = refl
take-short (suc n) (x ∷ xs) h = ap (◌∷◌ x) (take-short n xs (ground (arith, h)))

pub no_more : (n : ℕ) → ltb n (length {A = Item} []) ≡ false
unfolding length
no_more n = ground arith

pub length-drop : {A : Type 0} (n : ℕ) (xs : List A) → length (drop (suc n) xs) ≤ length xs - 1
unfolding drop length
length-drop n [] = ground arith
length-drop zero (x ∷ xs) = ground arith
length-drop (suc n) (x ∷ xs) = ground (arith, length-drop n xs)

pub any_where-drop :
    {A : Type 0} (p : A → Bool) (n : ℕ) (xs : List A)
    → any_where p xs ≡ false
    → any_where p (drop n xs) ≡ false
unfolding drop any_where
any_where-drop p zero xs h = h
any_where-drop p (suc n) [] h = h
any_where-drop p (suc n) (x ∷ xs) h = any_where-drop p n xs (ground (arith, h))

pub drop-Strict :
    {A : Type 0} (le : A → A → Bool) (n : ℕ) (xs : List A) → Strict le xs → Strict le (drop n xs)
unfolding drop
drop-Strict le zero xs s = s
drop-Strict le (suc n) [] s = tt
drop-Strict le (suc n) (x ∷ xs) (h, s) = drop-Strict le n xs s

-- The collation orders the texts.
pub record IsCollation (plat : Platform) : Type 0 where
  pub total : (s t : String) → (plat.text_le s t || plat.text_le t s) ≡ true
  pub trans :
      (s t u : String) → plat.text_le s t ≡ true → plat.text_le t u ≡ true → plat.text_le s u ≡ true
  pub antisym :
      (s t : String) → plat.text_le s t ≡ true → plat.text_le t s ≡ true → str_eq s t ≡ true

-- A property of all the rows is one of the last row of a page.
pub last_sku-take :
    (p : String → Bool) (n : ℕ) (x : Item) (xs : List Item)
    → any_where (λ i. p i.sku) (x ∷ xs) ≡ false
    → p (last_sku (take (suc n) (x ∷ xs))) ≡ false
unfolding last_sku take any_where
last_sku-take p zero x xs h = ground (arith, h)
last_sku-take p (suc n) x [] h = ground (arith, h)
last_sku-take p (suc n) x (y ∷ ys) h = ground (arith, h, last_sku-take p n y ys)

module _ (plat : Platform) where
  abbrev pub item_le : Item → Item → Bool
  item_le i j = plat.text_le i.sku j.sku

  abbrev pub comes_after : String → Item → Bool
  comes_after sku i = not (plat.text_le i.sku sku)

  abbrev product_le : Product → Product → Bool
  product_le p q = plat.text_le p.sku q.sku

  -- The rows of the whole catalog.
  abbrev base : Db → List Product
  base db = sort_by product_le (select_where (λ p. p.active) db.products)

  abbrev pub whole : List Inventory → Db → List Item
  whole inventory db = map (item_of inventory) (base db)

  abbrev pub is_shown : String → Item → Bool
  is_shown after_sku i = str_eq after_sku "" || comes_after after_sku i

module _ (plat : Platform) (order : IsCollation plat) where
  -- What comes after the last row of a page is the rest of the rows.
  pub after-last_sku :
      (n : ℕ) (x : Item) (xs : List Item)
      → Strict (item_le plat) (x ∷ xs)
      → select_where (comes_after plat (last_sku (take (suc n) (x ∷ xs)))) (x ∷ xs) ≡ drop n xs
  unfolding last_sku take drop select_where any_where
  after-last_sku zero x xs (h, s) = ground (
    arith,
    order.total x.sku x.sku,
    select_where-all (comes_after plat x.sku) xs (
        any_where_mono (λ i. plat.text_le i.sku x.sku) (λ i. not (comes_after plat x.sku i)) xs
          (λ i k. ground (arith, k)) h),
  )
  after-last_sku (suc n) x [] s = ground (arith, order.total x.sku x.sku)
  after-last_sku (suc n) x (y ∷ ys) (h, s) =
      let last = last_sku-take (λ t. plat.text_le t x.sku) n y ys h in
      ground
        (arith, last, order.total x.sku (last_sku (take (suc n) (y ∷ ys))), after-last_sku n y ys s)

  pub rows_after-whole :
      (inventory : List Inventory) (after_sku : String) (db : Db)
      → rows_after plat inventory after_sku db
        ≡ select_where (is_shown plat after_sku) (whole plat inventory db)
  unfolding rows_after is_listed item_of
  rows_after-whole inventory after_sku db =
      let shown : Product → Bool = λ p. str_eq after_sku "" || not (plat.text_le p.sku after_sku) in
      ap (map (item_of inventory)) (
        ap (sort_by (product_le plat)) (select_where-both (λ p. p.active) shown db.products)
        ∙ sort_by-select_where (product_le plat) (λ p q. order.total p.sku q.sku)
            (λ p q r. order.trans p.sku q.sku r.sku) shown
            (select_where (λ p. p.active) db.products))
      ∙ sym (select_where-map (item_of inventory) (is_shown plat after_sku) (base plat db))

  pub whole-Strict :
      (inventory : List Inventory) (db : Db)
      → Distinct (λ p q. str_eq p.sku q.sku) db.products
      → Strict (item_le plat) (whole plat inventory db)
  unfolding item_of
  whole-Strict inventory db d = mapped (base plat db) (
      Ordered-Strict (λ p q. str_eq p.sku q.sku) (product_le plat)
        (λ p q h k. order.antisym q.sku p.sku k h) (base plat db)
        (sort_by-Ordered (product_le plat) (λ p q. order.total p.sku q.sku)
          (λ p q r. order.trans p.sku q.sku r.sku) (select_where (λ p. p.active) db.products))
        (sort_by-Distinct (λ p q. str_eq p.sku q.sku) (product_le plat)
          (λ p q. str_eq_comm p.sku q.sku) (select_where (λ p. p.active) db.products)
          (select_where-Distinct (λ p q. str_eq p.sku q.sku) (λ p. p.active) db.products d)))
    where
      mapped :
          (ps : List Product)
          → Strict (product_le plat) ps
          → Strict (item_le plat) (map (item_of inventory) ps)
      mapped [] s = tt
      mapped (p ∷ ps) (h, s) = (any_where-map (item_of inventory) _ ps ∙ h, mapped ps s)

  pub whole-named :
      (inventory : List Inventory) (db : Db)
      → any_where (λ p. str_eq p.sku "") db.products ≡ false
      → any_where (λ i. str_eq i.sku "") (whole plat inventory db) ≡ false
  unfolding item_of
  whole-named inventory db named =
      any_where-map (item_of inventory) (λ i. str_eq i.sku "") (base plat db)
      ∙ any_where-sort_by (product_le plat) (λ p. str_eq p.sku "")
          (select_where (λ p. p.active) db.products)
      ∙ any_where-selected (λ p. p.active) (λ p. str_eq p.sku "") db.products named

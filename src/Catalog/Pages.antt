-- ===== src/Catalog/Pages.antt =====
-- A page of the catalog against the whole query.
use digital_store.Prelude.{
  ℕ, zero, suc, ◌≤◌, ltb, if◌then◌else◌, false, Bool-cases, inl, inr, String, ℤ, pos, negsuc, List,
  [], ◌∷◌, length, ◌≡◌, refl, arith,
}
use digital_store.Model.{Db, Platform}
use digital_store.Catalog.{Inventory, Item, clamp_limit, take, rows_after, last_sku, page_of, list}

module _ {A : Type 0} where
  take-take : (n : ℕ) (xs : List A) → take n (take (suc n) xs) ≡ take n xs
  unfolding take
  take-take zero xs = refl
  take-take (suc n) [] = refl
  take-take (suc n) (x ∷ xs) = ground (arith, take-take n xs)

  -- One row more than the limit shows whether there are more.
  ltb-length-take : (n : ℕ) (xs : List A) → ltb n (length (take (suc n) xs)) ≡ ltb n (length xs)
  unfolding take length
  ltb-length-take zero [] = refl
  ltb-length-take zero (x ∷ xs) = ground arith
  ltb-length-take (suc n) [] = refl
  ltb-length-take (suc n) (x ∷ xs) = ground (arith, ltb-length-take n xs)

  take-all : (n : ℕ) (xs : List A) → ltb n (length xs) ≡ false → take (suc n) xs ≡ take n xs
  unfolding take length
  take-all zero [] h = refl
  take-all zero (x ∷ xs) h = ground (arith, h)
  take-all (suc n) [] h = refl
  take-all (suc n) (x ∷ xs) h = ground (arith, h, take-all n xs)

  length-take : (n : ℕ) (xs : List A) → length (take n xs) ≤ n
  unfolding take length
  length-take zero xs = ground arith
  length-take (suc n) [] = ground arith
  length-take (suc n) (x ∷ xs) = ground (arith, length-take n xs)

pub clamp_limit-bounds : (limit : ℤ) → (1 ≤ clamp_limit limit) × (clamp_limit limit ≤ 100)
unfolding clamp_limit
clamp_limit-bounds (negsuc n) = ground arith
clamp_limit-bounds (pos n) = ground arith

-- A page holds the first rows of the whole query, as many as its limit, which is between 1 and 100.
-- Its cursor is the SKU of its last item where the query has more rows, and empty where it has not.
pub list-rows_after :
    (plat : Platform) (inventory : List Inventory) (limit : ℤ) (after_sku : String) (db : Db)
    → ((list plat inventory limit after_sku db).items
        ≡ take (clamp_limit limit) (rows_after plat inventory after_sku db))
      × ((list plat inventory limit after_sku db).next_cursor ≡ (
          if ltb (clamp_limit limit) (length (rows_after plat inventory after_sku db))
          then last_sku (list plat inventory limit after_sku db).items
          else ""))
      × (1 ≤ (list plat inventory limit after_sku db).limit)
      × ((list plat inventory limit after_sku db).limit ≤ 100)
      × (length (list plat inventory limit after_sku db).items
          ≤ (list plat inventory limit after_sku db).limit)
unfolding list page_of
list-rows_after plat inventory limit after_sku db =
    let n = clamp_limit limit in
    let rows = rows_after plat inventory after_sku db in paged n rows (clamp_limit-bounds limit)
  where
    paged :
        (n : ℕ) (rows : List Item)
        → (1 ≤ n) × (n ≤ 100)
        → (((page_of n rows).items ≡ take n rows)
            × ((page_of n rows).next_cursor
                ≡ (if ltb n (length rows) then last_sku (page_of n rows).items else ""))
            × (1 ≤ (page_of n rows).limit)
            × ((page_of n rows).limit ≤ 100)
            × (length (page_of n rows).items ≤ (page_of n rows).limit))
    paged n rows (lo, hi) = elim (Bool-cases (ltb n (length rows))) [
      | inl more ↦
          ground (arith, more, lo, hi, take-take n rows, ltb-length-take n rows, length-take n rows)
      | inr fits ↦
          ground
            (arith, fits, lo, hi, take-all n rows fits, ltb-length-take n rows, length-take n rows)
    ]

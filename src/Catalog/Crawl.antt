-- ===== src/Catalog/Crawl.antt =====
-- A client that follows the cursors of the pages sees the whole catalog.
use digital_store.Prelude.{
  ℕ, zero, suc, ◌≤◌, ltb, str_eq, if◌then◌else◌, false, not, ◌||◌, Bool-cases, inl, inr, String, ℤ,
  List, [], ◌∷◌, ◌++◌, length, any_where, select_where, ◌≡◌, refl, sym, ap, ◌∙◌, subst, arith,
}
use native.Mathlib.Nat.{le_refl}
use digital_store.Prelude.Sorting.{any_where-each}
use digital_store.Prelude.Ordered.{
  Strict, select_where-all, select_where-narrow, any_where-unselected, Distinct,
}
use digital_store.Catalog.Pages.{list-rows_after, clamp_limit-bounds}
use digital_store.Model.{Db, Platform}
use digital_store.Catalog.{Inventory, Item, clamp_limit, take, rows_after, last_sku, list}
use digital_store.Catalog.Whole.{
  IsCollation, drop, take-drop, take-short, no_more, length-drop, any_where-drop, drop-Strict,
  last_sku-take, item_le, after-last_sku, comes_after, whole, is_shown, rows_after-whole,
  whole-Strict, whole-named,
}

-- A client that asks for a page after each cursor, until there is none: at most `fuel` pages.
pub crawl : Platform → List Inventory → ℤ → ℕ → String → Db → List Item
crawl plat inventory limit zero after_sku db = []
crawl plat inventory limit (suc fuel) after_sku db =
    let page = list plat inventory limit after_sku db in
    let rest = crawl plat inventory limit fuel page.next_cursor db in
    page.items ++ (if str_eq page.next_cursor "" then [] else rest)

module _ (plat : Platform) (order : IsCollation plat) where
  module _ (inventory : List Inventory) (limit : ℤ) (db : Db) where
    -- The rows that follow a page, for the next page.
    next_rows :
        (after_sku : String) (m : ℕ) (x : Item) (xs : List Item)
        → rows_after plat inventory after_sku db ≡ x ∷ xs
        → Strict (item_le plat) (x ∷ xs)
        → str_eq (last_sku (take (suc m) (x ∷ xs))) "" ≡ false
        → rows_after plat inventory (last_sku (take (suc m) (x ∷ xs))) db ≡ drop m xs
    next_rows after_sku m x xs rows strict named =
        let last = last_sku (take (suc m) (x ∷ xs)) in
        let shown : any_where (λ i. not (is_shown plat after_sku i)) (x ∷ xs) ≡ false =
          subst (λ r. any_where (λ i. not (is_shown plat after_sku i)) r ≡ false)
            (sym (rows_after-whole plat order inventory after_sku db) ∙ rows)
            (any_where-unselected (is_shown plat after_sku) (whole plat inventory db)) in
        let beyond =
          last_sku-take (λ t. not (str_eq after_sku "" || not (plat.text_le t after_sku))) m x xs
            shown in
        rows_after-whole plat order inventory last db
        ∙ sym (
            select_where-narrow (is_shown plat last) (is_shown plat after_sku)
              (whole plat inventory db)
              (λ i k. ground (
                arith,
                k,
                named,
                beyond,
                order.trans i.sku after_sku last,
                order.total after_sku last,
              )))
        ∙ ap (select_where (is_shown plat last))
            (sym (rows_after-whole plat order inventory after_sku db) ∙ rows)
        ∙ ap (λ b. select_where (λ i. b || comes_after plat last i) (x ∷ xs)) named
        ∙ after-last_sku plat order m x xs strict

    crawl-next :
        (fuel n : ℕ) (after_sku : String) (rows : List Item)
        → 1 ≤ n
        → rows_after plat inventory after_sku db ≡ rows
        → (list plat inventory limit after_sku db).items ≡ take n rows
        → (list plat inventory limit after_sku db).next_cursor
          ≡ (if ltb n (length rows) then last_sku (take n rows) else "")
        → Strict (item_le plat) rows
        → any_where (λ i. str_eq i.sku "") rows ≡ false
        → ((m : ℕ) (cursor : String)
            → rows_after plat inventory cursor db ≡ drop (suc m) rows
            → crawl plat inventory limit fuel cursor db ≡ drop (suc m) rows)
        → crawl plat inventory limit (suc fuel) after_sku db ≡ rows
    unfolding crawl drop
    crawl-next fuel zero after_sku rows pos shown items cursor strict named rest =
        elim (let never : ⊥ = omega (arith, pos) in never) [ ]
    crawl-next fuel (suc m) after_sku [] pos shown items cursor strict named rest =
        let fits = no_more (suc m) in
        let page = list plat inventory limit after_sku db in
        let last : page.next_cursor ≡ "" =
          cursor ∙ ap (λ b. if b then last_sku (take (suc m) []) else "") fits in
        let rest_of : String → List Item =
          λ c. if str_eq c "" then [] else crawl plat inventory limit fuel c db in
        ap (λ r. r ++ rest_of page.next_cursor) items
        ∙ ap (λ c. take (suc m) [] ++ rest_of c) last
        ∙ take-short (suc m) [] fits
    crawl-next fuel (suc m) after_sku (x ∷ xs) pos shown items cursor strict named rest =
        let page = list plat inventory limit after_sku db in
        let first = take (suc m) (x ∷ xs) in
        let rest_of : String → List Item =
          λ c. if str_eq c "" then [] else crawl plat inventory limit fuel c db in
        ap (λ r. r ++ rest_of page.next_cursor) items
        ∙ elim (Bool-cases (ltb (suc m) (length (x ∷ xs)))) [
          | inl more ↦
              let last : page.next_cursor ≡ last_sku first =
                cursor ∙ ap (λ b. if b then last_sku first else "") more in
              let name = last_sku-take (λ t. str_eq t "") m x xs named in
              let next = rest m (last_sku first) (next_rows after_sku m x xs shown strict name) in
              ap (λ c. first ++ rest_of c) last
              ∙ ap
                  (λ b.
                    first
                    ++ (if b then [] else crawl plat inventory limit fuel (last_sku first) db))
                  name
              ∙ ap (λ r. first ++ r) next
              ∙ take-drop (suc m) (x ∷ xs)
          | inr fits ↦
              let last : page.next_cursor ≡ "" =
                cursor ∙ ap (λ b. if b then last_sku first else "") fits in
              ap (λ c. first ++ rest_of c) last ∙ take-short (suc m) (x ∷ xs) fits
        ]

    crawl-from :
        (fuel : ℕ) (after_sku : String) (rows : List Item)
        → rows_after plat inventory after_sku db ≡ rows
        → Strict (item_le plat) rows
        → any_where (λ i. str_eq i.sku "") rows ≡ false
        → length rows ≤ fuel
        → crawl plat inventory limit fuel after_sku db ≡ rows
    crawl-from zero after_sku [] shown strict named enough = unfold crawl in refl
    crawl-from zero after_sku (x ∷ xs) shown strict named enough =
        elim (let never : ⊥ = unfold length in omega (arith, enough) in never) [ ]
    crawl-from (suc fuel) after_sku rows shown strict named enough =
        let page = list-rows_after plat inventory limit after_sku db in
        let items = page.0 ∙ ap (take (clamp_limit limit)) shown in
        let cursor =
          page.1
          ∙ ap
              (λ r.
                if ltb (clamp_limit limit) (length r)
                then last_sku (list plat inventory limit after_sku db).items
                else "")
              shown
          ∙ ap (λ r. if ltb (clamp_limit limit) (length rows) then last_sku r else "") items in
        crawl-next fuel (clamp_limit limit) after_sku rows (clamp_limit-bounds limit).0 shown items
          cursor strict named
          (λ m next_cursor here.
            crawl-from fuel next_cursor (drop (suc m) rows) here
              (drop-Strict (item_le plat) (suc m) rows strict)
              (any_where-drop (λ i. str_eq i.sku "") (suc m) rows named)
              (omega (arith, length-drop m rows, enough)))

    -- A client that starts without a cursor and follows the cursors of the pages, at most as many as
    -- there are rows, gets every row of the catalog once and in the order of the SKUs, whatever the
    -- limit. The SKUs of the products are distinct and not empty, and the collation orders them.
    pub crawl-rows_after :
        Distinct (λ p q. str_eq p.sku q.sku) db.products
        → any_where (λ p. str_eq p.sku "") db.products ≡ false
        → crawl plat inventory limit (length (rows_after plat inventory "" db)) "" db
          ≡ rows_after plat inventory "" db
    crawl-rows_after distinct named =
        let rows = rows_after plat inventory "" db in
        let all : whole plat inventory db ≡ rows = sym (
          rows_after-whole plat order inventory "" db
          ∙ select_where-all (is_shown plat "") (whole plat inventory db)
              (any_where-each (λ i. false) (whole plat inventory db) (λ i m. refl))) in
        crawl-from (length rows) "" rows refl
          (subst (Strict (item_le plat)) all (whole-Strict plat order inventory db distinct))
          (subst (λ r. any_where (λ i. str_eq i.sku "") r ≡ false) all
            (whole-named plat order inventory db named))
          (le_refl (length rows))

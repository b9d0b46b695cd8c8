-- ===== src/Catalog.antt =====
-- internal/catalog: `List`, one page of the active products with what is left of each.
use digital_store.Prelude.{
  ℕ, zero, suc, ◌+◌, ltb, leb, str_eq, ◌==◌, ◌||◌, if◌then◌else◌, coalesce, Bool, not, ◌&&◌, String,
  ℤ, pos, negsuc, Option, none, some, List, [], ◌∷◌, map, length, find_where, select_where, sort_by,
}
use digital_store.Model.{Db, Product, Platform}
pub mod Pages
pub mod Whole
pub mod Crawl

-- a row of `inventory`
pub record Inventory : Type 0 where
  pub sku : String
  pub available : ℤ

pub record Item : Type 0 where
  pub sku : String
  pub name : String
  pub type : String
  pub price : ℤ
  pub currency : String
  pub image : String
  pub available : ℤ

pub record Page : Type 0 where
  pub items : List Item
  pub next_cursor : String
  pub limit : ℕ

-- 50 where the limit is not positive, and 100 at most
unfoldable pub clamp_limit : ℤ → ℕ
clamp_limit (negsuc n) = 50
clamp_limit (pos n) = if n == 0 then 50 else if ltb 100 n then 100 else n

unfoldable pub take : {A : Type 0} → ℕ → List A → List A
take zero xs = []
take (suc n) [] = []
take (suc n) (x ∷ xs) = x ∷ take n xs

unfoldable pub available_of : List Inventory → String → ℤ
available_of inventory sku = elim (find_where (λ i. str_eq i.sku sku) inventory) [
  | none ↦ pos 0
  | some i ↦ i.available
]

unfoldable pub item_of : List Inventory → Product → Item
item_of inventory p = record {
  sku = p.sku;
  name = p.name;
  type = p.product_type;
  price = p.price_minor;
  currency = p.currency;
  image = coalesce p.image "";
  available = available_of inventory p.sku;
}

-- `p.active = TRUE`, and `p.sku > $1` where there is a cursor
unfoldable pub is_listed : Platform → String → Product → Bool
is_listed plat after_sku p = p.active && (str_eq after_sku "" || not (plat.text_le p.sku after_sku))

-- The query without its LIMIT.
unfoldable pub rows_after : Platform → List Inventory → String → Db → List Item
rows_after plat inventory after_sku db = map (item_of inventory) (
    sort_by (λ a b. plat.text_le a.sku b.sku) (select_where (is_listed plat after_sku) db.products))

-- The SKU of `items[len(items)-1]`, for items that are not empty
unfoldable pub last_sku : List Item → String
last_sku [] = ""
last_sku (i ∷ []) = i.sku
last_sku (i ∷ j ∷ rest) = last_sku (j ∷ rest)

-- The page of the rows that the query returns: its LIMIT is one row more than the page holds, to see
-- whether there is a next one.
unfoldable pub page_of : ℕ → List Item → Page
page_of n rows =
    let items = take (suc n) rows in
    if ltb n (length items)
    then record { items = take n items; next_cursor = last_sku (take n items); limit = n }
    else record { items = items; next_cursor = ""; limit = n }

-- `List`
unfoldable pub list : Platform → List Inventory → ℤ → String → Db → Page
list plat inventory limit after_sku db =
    page_of (clamp_limit limit) (rows_after plat inventory after_sku db)

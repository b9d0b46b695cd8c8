-- ===== src/Http/Listing.antt =====
-- internal/httpapi/catalog.go: `catalog`.
use digital_store.Prelude.{
  ltb, str_eq, if◌then◌else◌, not, Bool, true, ◌||◌, String, Option, none, some, ℤ, pos, negsuc,
  trim_space, atoi,
}
use digital_store.Model.{Db, Platform, Result, ok, err}
use digital_store.Catalog.{Page, list}
use digital_store.Http.{
  Content, Response, Server, Moment, write_json, internal_error, attempt, answer, refuse,
}

-- The parameter `limit`, 50 where it is missing or empty.
unfoldable pub limit_of : String → Option ℤ
limit_of raw = if str_eq raw "" then some (pos 50) else atoi raw

-- `limit < 1 || limit > 100`
unfoldable pub is_out_of_range : ℤ → Bool
is_out_of_range (negsuc n) = true
is_out_of_range (pos n) = ltb n 1 || ltb 100 n

unfoldable pub listed : Result Page → Response
listed (ok p) = write_json 200 (Content.page p)
listed (err e) = internal_error

unfoldable pub list_limited : Platform → Moment → Option ℤ → String → Db → Response × Db
list_limited plat at none after_sku = refuse 400 "invalid limit"
list_limited plat at (some limit) after_sku =
    if is_out_of_range limit
    then refuse 400 "limit must be between 1 and 100"
    else answer (attempt at (λ db. ok (list plat at.inventory limit (trim_space after_sku) db, db)))
        listed

-- `catalog`
unfoldable pub catalog : Server → Platform → Moment → String → String → Db → Response × Db
catalog server plat at limit after_sku =
    if not server.catalog_repo
    then refuse 503 "catalog service is not configured"
    else list_limited plat at (limit_of limit) after_sku

-- ===== src/Tests/Goods.antt =====
-- The result about the catalog, applied to the shop.
use digital_store.Prelude.{◌≤◌, ltb, if◌then◌else◌, pos, [], length, ◌≡◌}
use digital_store.Catalog.{clamp_limit, take, rows_after, last_sku, list}
use digital_store.Catalog.Pages.{list-rows_after}
use digital_store.Tests.Shop.{platform, created_db}

list-rows_after_example :
    ((list platform [] (pos 1) "" created_db).items
      ≡ take (clamp_limit (pos 1)) (rows_after platform [] "" created_db))
    × ((list platform [] (pos 1) "" created_db).next_cursor ≡ (
        if ltb (clamp_limit (pos 1)) (length (rows_after platform [] "" created_db))
        then last_sku (list platform [] (pos 1) "" created_db).items
        else ""))
    × (1 ≤ (list platform [] (pos 1) "" created_db).limit)
    × ((list platform [] (pos 1) "" created_db).limit ≤ 100)
    × (length (list platform [] (pos 1) "" created_db).items
        ≤ (list platform [] (pos 1) "" created_db).limit)
list-rows_after_example = list-rows_after platform [] (pos 1) "" created_db

-- ===== src/Tests/Collation.antt =====
-- A collation that orders the texts by the numbers of their characters, and a shop of three products.
use Prim.Native.Char.{code}
use text.Mathlib.TextEquality.{Char-path, eq_iff}
use digital_store.Prelude.{
  String, Bool, true, false, List, [], ◌∷◌, ltb, leb, str_eq, ◌||◌, ◌&&◌, pos, ◌≡◌, refl, any_where,
  length, arith,
}
use digital_store.Model.{Platform, Product}
use digital_store.Prelude.Ordered.{Distinct}
use digital_store.Catalog.{rows_after}
use digital_store.Catalog.Whole.{IsCollation}
use digital_store.Catalog.Crawl.{crawl, crawl-rows_after}
use digital_store.System.{opened}
use digital_store.Tests.Shop.{platform, game}

abbrev comes_before : String → String → Bool
comes_before String.[] t = true
comes_before (String.◌∷◌ c s) String.[] = false
comes_before (String.◌∷◌ c s) (String.◌∷◌ d t) =
    let rest = comes_before s t in ltb (code c) (code d) || (leb (code c) (code d) && rest)

comes_before_total : (s t : String) → (comes_before s t || comes_before t s) ≡ true
comes_before_total String.[] t = refl
comes_before_total (String.◌∷◌ c s) String.[] = refl
comes_before_total (String.◌∷◌ c s) (String.◌∷◌ d t) = ground (arith, comes_before_total s t)

comes_before_trans :
    (s t u : String) → comes_before s t ≡ true → comes_before t u ≡ true → comes_before s u ≡ true
comes_before_trans String.[] t u h k = refl
comes_before_trans (String.◌∷◌ c s) String.[] u h k = ground (arith, h)
comes_before_trans (String.◌∷◌ c s) (String.◌∷◌ d t) String.[] h k = ground (arith, k)
comes_before_trans (String.◌∷◌ c s) (String.◌∷◌ d t) (String.◌∷◌ e u) h k =
    ground (arith, h, k, comes_before_trans s t u)

comes_before_antisym : (s t : String) → comes_before s t ≡ true → comes_before t s ≡ true → s ≡ t
comes_before_antisym String.[] String.[] h k = refl
comes_before_antisym String.[] (String.◌∷◌ d t) h k = ground (arith, k)
comes_before_antisym (String.◌∷◌ c s) String.[] h k = ground (arith, h)
comes_before_antisym (String.◌∷◌ c s) (String.◌∷◌ d t) h k =
    let first = Char-path c d (ground (arith, h, k)) in
    let rest = comes_before_antisym s t (ground (arith, h, k)) (ground (arith, h, k)) in
    λ i. String.◌∷◌ (first i) (rest i)

abbrev plat : Platform
plat = record platform { text_le = comes_before }

plat-IsCollation : IsCollation plat
plat-IsCollation = record {
  total = comes_before_total;
  trans = comes_before_trans;
  antisym = λ s t h k. (eq_iff s t).1 (comes_before_antisym s t h k);
}

abbrev goods : List Product
goods = record game { sku = "c" } ∷ game ∷ record game { sku = "a" } ∷ []

goods-Distinct : Distinct (λ p q. str_eq p.sku q.sku) goods
unfolding any_where
goods-Distinct = (refl, (refl, (refl, tt)))

goods_named : any_where (λ p. str_eq p.sku "") goods ≡ false
unfolding any_where
goods_named = refl

crawl-rows_after_example :
    crawl plat [] (pos 1) (length (rows_after plat [] "" (opened goods).db)) "" (opened goods).db
    ≡ rows_after plat [] "" (opened goods).db
crawl-rows_after_example =
    crawl-rows_after plat plat-IsCollation [] (pos 1) (opened goods).db goods-Distinct goods_named

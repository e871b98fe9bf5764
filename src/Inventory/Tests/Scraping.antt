-- ===== src/Inventory/Tests/Scraping.antt =====
-- A scrape of the small shop.
use ecommerce_orderflow.Prelude.{ℕ, String, ◌≡◌, refl, []}
use ecommerce_orderflow.Runtime.{ok}
use ecommerce_orderflow.Inventory.Tests.Shop.{shop, shop-IsConsistent}
use ecommerce_orderflow.Inventory.Gauges.{Gauges, scrape}
use ecommerce_orderflow.Inventory.Gauges.Scraped.{Scrapes, scrape-Scrapes}

abbrev no_order : String → ℕ
no_order sku = 0

abbrev no_gauges : Gauges
no_gauges = record { on_hand = []; reserved = []; available = []; alerts_open = 9 }

scrape-Scrapes_example :
    ((scrape no_order no_gauges shop).0 ≡ ok tt)
    × Scrapes shop (scrape no_order no_gauges shop).1.1 (scrape no_order no_gauges shop).1.0
scrape-Scrapes_example =
    scrape-Scrapes no_order no_gauges shop (refl, tt) shop-IsConsistent refl refl

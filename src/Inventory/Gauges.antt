-- ===== src/Inventory/Gauges.antt =====
-- The scrape endpoint of apps/inventory-service/src/observability: `scrape` of metrics.controller.ts on
-- the gauges of metrics.service.ts.
pub mod Lookup
pub mod Sorted
pub mod Scraped
use ecommerce_orderflow.Prelude.{
  ℕ, String, str_eq, List, [], ◌∷◌, Bool, Option, none, some, ℤ, pos, ◌-ℤ◌, sort_by, if◌then◌else◌,
}
use ecommerce_orderflow.Runtime.{Result, ok, err, gets}
use ecommerce_orderflow.Inventory.Errors.{Thrown}
use ecommerce_orderflow.Inventory.Tables.{StockItemRow, Inventory}
use ecommerce_orderflow.Inventory.Repository.{Tx, transaction, count_open_alerts}

-- The value of a gauge under a label.
pub record Sample : Type 0 where
  pub sku : String
  pub value : ℤ

pub record Gauges : Type 0 where
  pub on_hand : List Sample
  pub reserved : List Sample
  pub available : List Sample
  pub alerts_open : ℕ

-- `gauge.set({ sku }, value)`
abbrev pub set_gauge : String → ℤ → List Sample → List Sample
set_gauge sku value [] = record { sku = sku; value = value } ∷ []
set_gauge sku value (x ∷ xs) =
    let rest = set_gauge sku value xs in
    if str_eq x.sku sku then record { sku = sku; value = value } ∷ xs else x ∷ rest

-- One statement on the pool. `collation` ranks the texts as the database orders them.
unfoldable pub all_items : (String → ℕ) → Tx (List StockItemRow)
unfolding transaction
all_items collation = transaction (gets λ w. sort_by (λ r. collation r.sku) w.db.stock_items)

abbrev pub set_item : StockItemRow → Gauges → Gauges
set_item i g = record g {
  on_hand = set_gauge i.sku (pos i.on_hand) g.on_hand;
  reserved = set_gauge i.sku (pos i.reserved) g.reserved;
  available = set_gauge i.sku (pos i.on_hand -ℤ pos i.reserved) g.available;
}

-- The loop over the items.
unfoldable pub set_items : List StockItemRow → Gauges → Gauges
set_items [] g = g
set_items (i ∷ is) g = set_items is (set_item i g)

abbrev pub set_alerts : Result Thrown ℕ → Gauges → Result Thrown (Unit {0}) × Gauges
set_alerts (ok n) g = (ok tt, record g { alerts_open = n })
set_alerts (err e) g = (err e, g)

abbrev pub show_items :
    Result Thrown (List StockItemRow)
    → Gauges
    → Inventory
    → Result Thrown (Unit {0}) × (Gauges × Inventory)
show_items (err e) g w = (err e, (g, w))
show_items (ok items) g w =
    let (n, w') = transaction count_open_alerts w in
    let (r, g') = set_alerts n (set_items items g) in (r, (g', w'))

-- The text that the registry makes of the metrics is left out.
unfoldable pub scrape :
    (String → ℕ) → Gauges → Inventory → Result Thrown (Unit {0}) × (Gauges × Inventory)
unfolding transaction set_items
scrape collation g w = let (items, w') = all_items collation w in show_items items g w'

-- ===== src/Inventory/Books.antt =====
-- The ledger `stock_movements` and the alerts of the inventory database, against its stock.
pub mod Recording
pub mod Changes
pub mod Counts
pub mod Reserving
pub mod Settling
pub mod Runs
use ecommerce_orderflow.Prelude.{
  ℕ, ◌≡◌, ◌⊎◌, List, [], ◌∷◌, Bool, true, false, Option, none, some, any, All, is_some, pos, ◌==◌,
  if◌then◌else◌,
}
use ecommerce_orderflow.Inventory.Rules.{StockLevels, alert_level_for}
use ecommerce_orderflow.Inventory.Tables.{StockItemRow, Movement, Db}
use ecommerce_orderflow.Inventory.Repository.{has_open_alert}
use ecommerce_orderflow.Inventory.Service.Record.{counts_of}

abbrev pub last_or : Option Movement → Option Movement → Option Movement
last_or (some m) other = some m
last_or none other = other

-- The latest movement of a product.
abbrev pub latest : ℕ → List Movement → Option Movement
latest p [] = none
latest p (m ∷ ms) = last_or (latest p ms) (if m.product_id == p then some m else none)

abbrev pub row_levels : StockItemRow → StockLevels
row_levels r = record {
  counts = counts_of r;
  reorder_level = pos r.reorder_level;
  reorder_qty = pos r.reorder_qty;
}

-- Once a product has a movement, the latest one shows its counts, and it has an open alert exactly when
-- its counts call for one.
abbrev pub IsBooked : Db → StockItemRow → Type 0
IsBooked d r =
    (latest r.product_id d.stock_movements ≡ none)
    ⊎ ((m : Movement) × (latest r.product_id d.stock_movements ≡ some m)
        × (m.on_hand_after ≡ pos r.on_hand)
        × (m.reserved_after ≡ pos r.reserved)
        × (has_open_alert r.product_id d ≡ is_some (alert_level_for (row_levels r))))

abbrev pub names : ℕ → List StockItemRow → Bool
names p rs = any (λ r. r.product_id == p) rs

-- `product_id` is the primary key of `stock_items`.
abbrev pub Keyed : List StockItemRow → Type 0
Keyed [] = Unit
Keyed (r ∷ rs) = (names r.product_id rs ≡ false) × Keyed rs

pub record Books (d : Db) : Type 0 where
  pub keyed : Keyed d.stock_items
  pub booked : All (IsBooked d) d.stock_items

-- In the middle of a change of one product.
pub record BooksBut (p : ℕ) (d : Db) : Type 0 where
  pub keyed : Keyed d.stock_items
  pub booked : All (λ r. ((r.product_id == p) ≡ true) ⊎ IsBooked d r) d.stock_items

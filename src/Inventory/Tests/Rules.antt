-- ===== src/Inventory/Tests/Rules.antt =====
-- The theorems on the stock rules at concrete counts.
use ecommerce_orderflow.Prelude.{◌≡◌, ◌↔◌, none, some, true, pos, ◌+ℤ◌, ◌≤ℤ◌}
use ecommerce_orderflow.Inventory.Rules.{
  low, out_of_stock, Counts, StockLevels, can_reserve, alert_level_for, suggested_reorder_qty,
}
use ecommerce_orderflow.Inventory.Rules.Laws.{
  can_reserve_iff, alert_level_for_iff, suggested_reorder_qty_least,
}

abbrev counts : Counts
counts = record { on_hand = pos 10; reserved = pos 3 }

abbrev levels : StockLevels
levels = record { counts = counts; reorder_level = pos 8; reorder_qty = pos 5 }

can_reserve_iff_example :
    (can_reserve counts (pos 7) ≡ true) ↔ ((pos 1 ≤ℤ pos 7) × (pos 3 +ℤ pos 7 ≤ℤ pos 10))
can_reserve_iff_example = can_reserve_iff counts (pos 7)

alert_level_for_iff_example :
    ((alert_level_for levels ≡ some out_of_stock) ↔ (pos 10 ≤ℤ pos 3))
    × ((alert_level_for levels ≡ some low)
        ↔ ((pos 3 +ℤ pos 1 ≤ℤ pos 10) × (pos 10 ≤ℤ pos 3 +ℤ pos 8)))
    × ((alert_level_for levels ≡ none)
        ↔ ((pos 3 +ℤ pos 1 ≤ℤ pos 10) × (pos 3 +ℤ pos 8 +ℤ pos 1 ≤ℤ pos 10)))
alert_level_for_iff_example = alert_level_for_iff levels

suggested_reorder_qty_least_example :
    (suggested_reorder_qty levels ≤ℤ pos 9)
    ↔ ((pos 5 ≤ℤ pos 9) × (pos 0 ≤ℤ pos 9) × (pos 8 +ℤ pos 8 +ℤ pos 3 ≤ℤ pos 10 +ℤ pos 9))
suggested_reorder_qty_least_example = suggested_reorder_qty_least levels (pos 9)

-- ===== src/Inventory/Rules.antt =====
-- apps/inventory-service/src/inventory/stock-rules.ts.
pub mod Laws
use ecommerce_orderflow.Prelude.{
  Bool, ◌&&◌, Option, none, some, ℤ, pos, ◌*ℤ◌, ◌-ℤ◌, leb_ℤ, max_ℤ, not, if◌then◌else◌,
}

pub data AlertLevel : Type 0 where
  low out_of_stock : AlertLevel

-- `Pick<StockLevels, "onHand" | "reserved">`
pub record Counts : Type 0 where
  pub on_hand : ℤ
  pub reserved : ℤ

pub record StockLevels : Type 0 where
  pub counts : Counts
  pub open counts use *
  pub reorder_level : ℤ
  pub reorder_qty : ℤ

unfoldable pub available : Counts → ℤ
unfolding ◌-ℤ◌
available levels = levels.on_hand -ℤ levels.reserved

unfoldable pub can_reserve : Counts → ℤ → Bool
unfolding available
can_reserve levels quantity = not (leb_ℤ quantity (pos 0)) && leb_ℤ quantity (available levels)

unfoldable pub alert_level_for : StockLevels → Option AlertLevel
unfolding available
alert_level_for levels =
    let avail = available levels.counts in
    if leb_ℤ avail (pos 0)
    then some out_of_stock
    else if leb_ℤ avail levels.reorder_level
    then some low
    else none

unfoldable pub suggested_reorder_qty : StockLevels → ℤ
unfolding available
suggested_reorder_qty levels =
    let target = levels.reorder_level *ℤ pos 2 -ℤ available levels.counts in
    max_ℤ (max_ℤ levels.reorder_qty target) (pos 0)

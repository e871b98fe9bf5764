-- ===== src/Inventory/Stock/Consistency.antt =====
-- The invariant of the inventory database: the column `reserved` counts the holds.
use ecommerce_orderflow.Prelude.{
  ℕ, ◌*◌, ◌≤◌, ◌<◌, ◌≡◌, true, List, All, sum_by, if◌then◌else◌, ◌==◌,
}
use ecommerce_orderflow.Inventory.Tables.{StockItemRow, ReservationRow, is_held, Db}
use ecommerce_orderflow.Inventory.Repository.Rows.{int4_max}
use ecommerce_orderflow.Inventory.Repository.{has_item}

-- What a reservation holds of a product.
abbrev pub held_of : ℕ → ReservationRow → ℕ
held_of p v = if v.product_id == p then (if is_held v.status then v.quantity else 0) else 0

abbrev pub held_total : ℕ → List ReservationRow → ℕ
held_total p = sum_by (held_of p)

-- The checks of a row of `stock_items`, with room for the reorder suggestion in an `integer`.
pub record IsStocked (r : StockItemRow) : Type 0 where
  pub covered : r.reserved ≤ r.on_hand
  pub on_hand_fits : r.on_hand ≤ int4_max
  pub level_fits : 2 * r.reorder_level ≤ int4_max
  pub qty_fits : r.reorder_qty ≤ int4_max

pub record IsKnown (d : Db) (v : ReservationRow) : Type 0 where
  pub positive : 0 < v.quantity
  pub quantity_fits : v.quantity ≤ int4_max
  pub item_known : has_item v.product_id d ≡ true

pub record IsConsistent (d : Db) : Type 0 where
  pub counted : All (λ r. r.reserved ≡ held_total r.product_id d.reservations) d.stock_items
  pub stocked : All IsStocked d.stock_items
  pub known : All (IsKnown d) d.reservations

-- ===== src/Inventory/Tests/Reserving.antt =====
-- A reservation of a new order, at concrete inputs.
use ecommerce_orderflow.Prelude.{◌≡◌, List, [], ◌∷◌, some, ◌+ℤ◌}
use ecommerce_orderflow.Runtime.{ok}
use ecommerce_orderflow.Inventory.Rules.{can_reserve, alert_level_for, suggested_reorder_qty}
use ecommerce_orderflow.Inventory.Tables.{ReservationRow, held}
use ecommerce_orderflow.Prelude.{refl, ◌-ℤ◌, max_ℤ, ◌*ℤ◌}
use ecommerce_orderflow.Inventory.Repository.{
  find_held_by_order, adjust_reserved, get_item, insert_movement, insert_alert, resolve_alert,
}
use ecommerce_orderflow.Inventory.Repository.Rows.{update_items, shift_reserved, fits_int4}
use ecommerce_orderflow.Inventory.Rules.{available}
use ecommerce_orderflow.Inventory.Service.Record.{record_and_evaluate}
use ecommerce_orderflow.Prelude.{ℕ, ◌++◌, All, sum_by, if◌then◌else◌, ◌==◌}
use ecommerce_orderflow.Inventory.Repository.{lock_items, insert_reservation}
use ecommerce_orderflow.Inventory.Repository.Rows.{is_quantity}
use ecommerce_orderflow.Inventory.Service.Record.{ReserveInput, ReserveResult}
use ecommerce_orderflow.Inventory.Service.Reserve.{
  reserve_in, sum_lines, add_wanted, lines_to_hold, hold_lines, hold_line,
}
use ecommerce_orderflow.Inventory.Stock.Consistency.{held_total}
use ecommerce_orderflow.Inventory.Stock.Asked.{reserve_in-holds}
use ecommerce_orderflow.Inventory.Tests.Shop.{shop, four_lamps}

abbrev fresh_order : ReserveInput
fresh_order = record {
  order_id = 6;
  items = four_lamps ∷ record { product_id = 7; quantity = 1 } ∷ [];
}

abbrev five_reserved : ReserveResult
five_reserved = record { order_id = 6; reserved = record { product_id = 7; quantity = 5 } ∷ [] }

five_held : (reserve_in 300 1000 fresh_order shop).0 ≡ ok five_reserved
unfolding reserve_in sum_lines add_wanted lines_to_hold hold_lines hold_line lock_items
    insert_reservation is_quantity can_reserve find_held_by_order adjust_reserved get_item
    record_and_evaluate insert_movement insert_alert resolve_alert update_items shift_reserved
    fits_int4 available alert_level_for suggested_reorder_qty ◌+ℤ◌ ◌-ℤ◌ ◌*ℤ◌ max_ℤ
five_held = refl

reserve_in-holds_example :
    (rows : List ReservationRow) × ((reserve_in 300 1000 fresh_order shop).1.db.reservations
      ≡ shop.db.reservations ++ rows)
    × All (λ v. (v.order_id ≡ 6) × (v.status ≡ held) × (v.expires_at ≡ some 301000)) rows
    × ((p : ℕ)
        → held_total p rows
          ≡ sum_by (λ l. if l.product_id == p then l.quantity else 0) fresh_order.items)
reserve_in-holds_example = reserve_in-holds 300 1000 fresh_order shop five_reserved refl five_held

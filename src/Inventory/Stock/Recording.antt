-- ===== src/Inventory/Stock/Recording.antt =====
-- Recording a movement of a stocked row never throws.
use ecommerce_orderflow.Prelude.{◌≤◌, ◌≡◌, true, arith, pos, ◌-ℤ◌, ◌*ℤ◌, max_ℤ}
use ecommerce_orderflow.Runtime.{ok}
use ecommerce_orderflow.Inventory.Rules.{StockLevels, available, suggested_reorder_qty}
use ecommerce_orderflow.Inventory.Tables.{StockItemRow, Inventory}
use ecommerce_orderflow.Inventory.Repository.Rows.{int4_max, fits_int4}
use ecommerce_orderflow.Inventory.Repository.{has_item}
use ecommerce_orderflow.Inventory.Service.Record.{Change, record_and_evaluate, counts_of}
use ecommerce_orderflow.Inventory.Stock.Consistency.{IsStocked}

abbrev levels : StockItemRow → StockLevels
levels r = record {
  counts = counts_of r;
  reorder_level = pos r.reorder_level;
  reorder_qty = pos r.reorder_qty;
}

suggestion_fits :
    (r : StockItemRow)
    → IsStocked r
    → (fits_int4 (suggested_reorder_qty (levels r)) ≡ true)
      × (fits_int4 (available (counts_of r)) ≡ true)
unfolding suggested_reorder_qty available fits_int4 ◌-ℤ◌ ◌*ℤ◌ max_ℤ
suggestion_fits r h = ground arith

abbrev pub Zeroed : Change → Type 0
Zeroed c = (c.on_hand_delta ≡ pos 0) × (c.reserved_delta ≡ pos 0) × (c.quantity ≤ int4_max)

pub record_and_evaluate-ok :
    (r : StockItemRow) (c : Change) (w : Inventory)
    → IsStocked r
    → Zeroed c
    → has_item r.product_id w.db ≡ true
    → (record_and_evaluate r c w).0 ≡ ok (counts_of r)
unfolding record_and_evaluate fits_int4
record_and_evaluate-ok r c w h z k = ground (arith, suggestion_fits r h)

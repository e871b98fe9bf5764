-- ===== src/Inventory/Stock/Frame.antt =====
-- What recording a movement and evaluating the alerts leave alone.
use ecommerce_orderflow.Prelude.{map, ap, ◌∙◌, ◌≡◌, arith}
use ecommerce_orderflow.Runtime.Laws.{Ensures}
use ecommerce_orderflow.Inventory.Tables.{StockItemRow, Inventory}
use ecommerce_orderflow.Inventory.Service.Record.{Change, record_and_evaluate}

-- The stock, the reservations and the receipts are as they were.
pub record Untouched (w w' : Inventory) : Type 0 where
  pub same_items : w'.db.stock_items ≡ w.db.stock_items
  pub same_reservations : w'.db.reservations ≡ w.db.reservations
  pub same_receipts : w'.db.processed_events ≡ w.db.processed_events
  pub same_faults : w'.faults ≡ w.faults

pub record_and_evaluate-Untouched :
    (row : StockItemRow) (c : Change) (w : Inventory)
    → Ensures (λ _ w'. Untouched w w') (record_and_evaluate row c w)
unfolding record_and_evaluate
record_and_evaluate-Untouched row c w = ground arith

-- The stock rows are changed by `f`; the reservations and the receipts are as they were.
pub record Changed (f : StockItemRow → StockItemRow) (w w' : Inventory) : Type 0 where
  pub items_changed : w'.db.stock_items ≡ map f w.db.stock_items
  pub reservations_kept : w'.db.reservations ≡ w.db.reservations
  pub receipts_kept : w'.db.processed_events ≡ w.db.processed_events
  pub faults_kept : w'.faults ≡ w.faults

-- One change after another.
pub Changed-trans :
    {f g h : StockItemRow → StockItemRow} {w w₁ w₂ : Inventory}
    → Changed f w w₁
    → Changed g w₁ w₂
    → map g (map f w.db.stock_items) ≡ map h w.db.stock_items
    → Changed h w w₂
Changed-trans {g = g} c₁ c₂ e = record {
  items_changed = c₂.items_changed ∙ ap (map g) c₁.items_changed ∙ e;
  reservations_kept = c₂.reservations_kept ∙ c₁.reservations_kept;
  receipts_kept = c₂.receipts_kept ∙ c₁.receipts_kept;
  faults_kept = c₂.faults_kept ∙ c₁.faults_kept;
}

-- ===== src/Inventory/Service/Record.antt =====
-- apps/inventory-service/src/inventory/inventory.service.ts: the shapes of calls, and `recordAndEvaluate`,
-- through which every change of stock goes.
use ecommerce_orderflow.Prelude.{ℕ, String, List, ◌∷◌, Option, none, some, ℤ, pos, ◌+ℤ◌}
use ecommerce_orderflow.Runtime.{ok, pure, ◌>>=◌, ◌>>◌}
use ecommerce_orderflow.Inventory.Rules.{
  AlertLevel, Counts, StockLevels, available, alert_level_for, suggested_reorder_qty,
}
use ecommerce_orderflow.Inventory.Tables.{
  StockItemRow, MovementKind, Movement, AlertRow, open_alert, ReservationOutcome,
}
use ecommerce_orderflow.Inventory.Repository.{Tx, insert_movement, insert_alert, resolve_alert}

-- A product and a quantity: a line of an order.
pub record Line : Type 0 where
  pub product_id : ℕ
  pub quantity : ℕ

pub record ReserveInput : Type 0 where
  pub order_id : ℕ
  pub items : List Line

pub record ReserveResult : Type 0 where
  pub order_id : ℕ
  pub reserved : List Line

pub record ReceiveInput : Type 0 where
  pub product_id : ℕ
  pub quantity : ℕ
  pub reason : Option String

pub record ReceiveResult : Type 0 where
  pub product_id : ℕ
  pub on_hand : ℤ

abbrev pub count_outcome : ReservationOutcome → Tx (Unit {0})
count_outcome o w =
    (ok tt, record w { metrics = record w.metrics { reservations = o ∷ w.metrics.reservations } })

abbrev pub count_movement : MovementKind → Tx (Unit {0})
count_movement k w =
    (ok tt, record w { metrics = record w.metrics { movements = k ∷ w.metrics.movements } })

abbrev pub counts_of : StockItemRow → Counts
counts_of row = record { on_hand = pos row.on_hand; reserved = pos row.reserved }

-- The argument `change` of `recordAndEvaluate`.
pub record Change : Type 0 where
  pub kind : MovementKind
  pub order_id : Option ℕ
  pub quantity : ℕ
  pub on_hand_delta : ℤ
  pub reserved_delta : ℤ
  pub reason : Option String

-- The movement, and the levels after it.
abbrev pub movement_of : StockItemRow → Change → Movement
movement_of before change = record {
  product_id = before.product_id;
  order_id = change.order_id;
  kind = change.kind;
  quantity = change.quantity;
  on_hand_after = pos before.on_hand +ℤ change.on_hand_delta;
  reserved_after = pos before.reserved +ℤ change.reserved_delta;
  reason = change.reason;
}

abbrev pub levels_of : StockItemRow → Change → StockLevels
levels_of before change = record {
  counts = record {
    on_hand = pos before.on_hand +ℤ change.on_hand_delta;
    reserved = pos before.reserved +ℤ change.reserved_delta;
  };
  reorder_level = pos before.reorder_level;
  reorder_qty = pos before.reorder_qty;
}

abbrev pub alert_of : StockItemRow → StockLevels → AlertLevel → AlertRow
alert_of before levels level = record {
  product_id = before.product_id;
  sku = before.sku;
  level = level;
  status = open_alert;
  available = available levels.counts;
  reorder_level = before.reorder_level;
  suggested_qty = suggested_reorder_qty levels;
}

-- The `if (level)` of `recordAndEvaluate`.
abbrev pub evaluate : StockItemRow → StockLevels → Option AlertLevel → Tx (Unit {0})
evaluate before levels none = resolve_alert before.product_id
evaluate before levels (some level) =
    insert_alert (alert_of before levels level) >>= λ opened. pure tt

unfoldable pub record_and_evaluate : StockItemRow → Change → Tx Counts
unfolding ◌+ℤ◌ available alert_level_for suggested_reorder_qty insert_movement insert_alert
    resolve_alert
record_and_evaluate before change = do
  let levels = levels_of before change
  insert_movement (movement_of before change)
  count_movement change.kind
  evaluate before levels (alert_level_for levels)
  pure levels.counts

abbrev pub record_after : Option StockItemRow → Change → Tx (Unit {0})
record_after none change = pure tt
record_after (some after) change = record_and_evaluate after change >>= λ counts. pure tt

abbrev pub change_of : MovementKind → ℕ → ℕ → Option String → Change
change_of kind order quantity reason = record {
  kind = kind;
  order_id = some order;
  quantity = quantity;
  on_hand_delta = pos 0;
  reserved_delta = pos 0;
  reason = reason;
}

-- ===== src/Inventory/Tables.antt =====
-- The inventory database: hasura/migrations/inventory, as the row types of
-- apps/inventory-service/src/db/inventory.repository.ts read it. UUIDs are their 128-bit numbers, in
-- which PostgreSQL orders them. Surrogate keys and timestamps that no code reads are left out.
use ecommerce_orderflow.Prelude.{ℕ, ℤ, String, List, Option, Bool, true, false}
use ecommerce_orderflow.Inventory.Rules.{AlertLevel}
use ecommerce_orderflow.Runtime.{World}

pub record StockItemRow : Type 0 where
  pub product_id : ℕ
  pub sku : String
  pub on_hand : ℕ
  pub reserved : ℕ
  pub reorder_level : ℕ
  pub reorder_qty : ℕ

pub data ReservationStatus : Type 0 where
  held released committed : ReservationStatus

abbrev pub is_held : ReservationStatus → Bool
is_held held = true
is_held released = false
is_held committed = false

pub record ReservationRow : Type 0 where
  pub order_id : ℕ
  pub product_id : ℕ
  pub quantity : ℕ
  pub status : ReservationStatus
  -- In milliseconds; none once the order is confirmed.
  pub expires_at : Option ℕ

pub data MovementKind : Type 0 where
  reserve release commit receive adjust : MovementKind

pub record Movement : Type 0 where
  pub product_id : ℕ
  pub order_id : Option ℕ
  pub kind : MovementKind
  pub quantity : ℕ
  pub on_hand_after : ℤ
  pub reserved_after : ℤ
  pub reason : Option String

pub data AlertStatus : Type 0 where
  open_alert resolved : AlertStatus

abbrev pub is_open : AlertStatus → Bool
is_open open_alert = true
is_open resolved = false

pub record AlertRow : Type 0 where
  pub product_id : ℕ
  pub sku : String
  pub level : AlertLevel
  pub status : AlertStatus
  pub available : ℤ
  pub reorder_level : ℕ
  pub suggested_qty : ℤ

pub record Db : Type 0 where
  pub stock_items : List StockItemRow
  pub reservations : List ReservationRow
  pub stock_movements : List Movement
  pub stock_alerts : List AlertRow
  pub processed_events : List String

-- The labels of the counter `inventory_reservations_total`.
pub data ReservationOutcome : Type 0 where
  outcome_held outcome_confirmed outcome_released outcome_committed : ReservationOutcome
  outcome_insufficient_stock : ReservationOutcome

-- A counter is the list of the label sets that it was incremented with, the latest first.
pub record Metrics : Type 0 where
  pub reservations : List ReservationOutcome
  pub movements : List MovementKind

abbrev pub Inventory : Type 0
Inventory = World Db Metrics

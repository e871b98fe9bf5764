-- ===== src/Services.antt =====
-- Both services at once, apps/workflow-service and apps/inventory-service, with what calls them: the
-- clients, the sweeper and the trigger `inventory_sync` of
-- hasura/metadata/databases/default/tables/public_order_events.yaml.
pub mod Asking
pub mod Runs
mod Tests
use ecommerce_orderflow.Prelude.{ℕ, String, ◌≡◌, List, ◌∷◌, ◌++◌, Bool, true, false, some, Option}
use ecommerce_orderflow.Domain.Transitions.{
  OrderStatus, pending, confirmed, packed, shipped, delivered, cancelled, returned,
}
use ecommerce_orderflow.Inventory.Serving.{
  Request as StockRequest, serve as serve_stock, reserves, confirms, commits, releases, receives,
  delivers, sweeps,
}
use ecommerce_orderflow.Inventory.Events.{HasuraEventBody, order_event}
use ecommerce_orderflow.Orders.Tables.{OrderEventRow}
use ecommerce_orderflow.Orders.Client.{System}
use ecommerce_orderflow.Orders.Serving.{Request, serve}

-- A status as the column holds it.
abbrev pub status_text : OrderStatus → String
status_text pending = "PENDING"
status_text confirmed = "CONFIRMED"
status_text packed = "PACKED"
status_text shipped = "SHIPPED"
status_text delivered = "DELIVERED"
status_text cancelled = "CANCELLED"
status_text returned = "RETURNED"

-- The text of a UUID, and PostgreSQL's reading of a text.
pub record Uuids : Type 0 where
  pub write : ℕ → String
  pub parse : String → Option ℕ

-- The body that Hasura makes of a new row of `order_events`.
abbrev pub event_body : Uuids → String → OrderEventRow → HasuraEventBody
event_body u id e = record {
  id = some id;
  order_id = some (u.write e.order_id);
  to_status = some (status_text e.to_status);
}

-- What comes to the inventory service beside the events: its routes have no `commit`.
abbrev pub is_routed : StockRequest → Bool
is_routed (reserves ttl now i) = true
is_routed (confirms o) = true
is_routed (commits o) = false
is_routed (releases o reason) = true
is_routed (receives i) = true
is_routed (delivers id p) = false
is_routed (sweeps now o) = true

-- A transaction that comes from outside, or the delivery of an event that the trail has, as often and as
-- late as the trigger likes.
pub data Step (u : Uuids) : System → System → Type 0 where
  called : (r : Request) (s : System) → Step u s (serve r s)
  asked :
      (r : StockRequest) (s : System)
      → is_routed r ≡ true
      → Step u s (record s { inventory = serve_stock r s.inventory })
  notified :
      (id : String) (e : OrderEventRow) (earlier later : List OrderEventRow) (s : System)
      → s.orders.db.order_events ≡ earlier ++ e ∷ later
      → Step u s (record s { inventory = (order_event u.parse (event_body u id e) s.inventory).1 })

pub data Steps (u : Uuids) : System → System → Type 0 where
  none_yet : (s : System) → Steps u s s
  then_step : {s₁ s₂ s₃ : System} → Steps u s₁ s₂ → Step u s₂ s₃ → Steps u s₁ s₃

-- ===== src/Orders/Audit.antt =====
-- The audit trail of the order database, hasura/migrations/default: `order_events` tells the story of
-- every order.
pub mod Moves
pub mod Places
pub mod Runs
use ecommerce_orderflow.Prelude.{
  ℕ, ◌+◌, ◌≡◌, List, [], ◌∷◌, ◌++◌, Bool, true, false, filter, any, ◌==◌, All, none, some, Option,
}
use ecommerce_orderflow.Domain.Transitions.{OrderStatus, pending, Role, OrderAction}
use ecommerce_orderflow.Domain.Gate.{Permits}
use ecommerce_orderflow.Orders.Tables.{OrderRow, OrderEventRow, create, act, OrderDb}
use ecommerce_orderflow.Orders.Repository.{has_id, has_order}

-- A story: an order is placed, and then moved by permitted transitions, each from where the last one
-- left it. The number counts the events, and the status is the last one.
pub data Trail : List OrderEventRow → ℕ → OrderStatus → Type 0 where
  placed :
      (e : OrderEventRow)
      → e.action ≡ create
      → e.from_status ≡ none
      → e.to_status ≡ pending
      → Trail (e ∷ []) 1 pending
  moved :
      {es : List OrderEventRow} {n : ℕ} {s t : OrderStatus} (e : OrderEventRow) (a : OrderAction)
      (r : Role)
      → Trail es n s
      → e.action ≡ act a
      → e.actor_role ≡ some r
      → e.from_status ≡ some s
      → e.to_status ≡ t
      → Permits r s a t
      → Trail (es ++ e ∷ []) (n + 1) t

abbrev pub events_of : ℕ → List OrderEventRow → List OrderEventRow
events_of id es = filter (λ e. e.order_id == id) es

-- No two orders have one id.
abbrev pub Keyed : List OrderRow → Type 0
Keyed [] = Unit
Keyed (o ∷ os) = (any (has_id o.id) os ≡ false) × Keyed os

-- The story of an order.
abbrev pub IsTold : List OrderEventRow → OrderRow → Type 0
IsTold es o = Trail (events_of o.id es) o.version o.status

pub record IsAudited (d : OrderDb) : Type 0 where
  pub keyed : Keyed d.orders
  pub told : All (IsTold d.order_events) d.orders
  pub owned : All (λ e. has_order e.order_id d ≡ true) d.order_events

-- ===== src/Orders/Serving.antt =====
-- Calls of both operations of apps/workflow-service/src/orders/orders.service.ts, in any order.
pub mod Calls
pub mod Steps
pub mod Saga
pub mod Runs
use ecommerce_orderflow.Prelude.{ℕ, ◌≡◌, List, [], ◌∷◌}
use ecommerce_orderflow.Domain.Transitions.{Role}
use ecommerce_orderflow.Orders.Tables.{OrderRow, OrderResult, OrderDb}
use ecommerce_orderflow.Orders.Transition.{Session, TransitionOrderInput, transition_order}
use ecommerce_orderflow.Orders.Client.{System, on_orders}
use ecommerce_orderflow.Orders.Placement.{Env, PlaceOrderInput, PricedLine, place_order}
use ecommerce_orderflow.Orders.Revision.{Advances}
use ecommerce_orderflow.Orders.Audit.Places.{Wrote}

-- A call of the order service.
pub data Request : Type 0 where
  places : Env → Session → PlaceOrderInput → Request
  moves : Session → TransitionOrderInput → Request

-- The state after a call, whether it was answered or refused.
unfoldable pub serve : Request → System → System
serve (places env session input) s = (place_order env session input s).1
serve (moves session input) s = (on_orders (transition_order session input) s).1

unfoldable pub run : List Request → System → System
run [] s = s
run (r ∷ rs) s = run rs (serve r s)

-- What the transactions that write orders and events keep of the database.
pub record IsKept (P : OrderDb → Type 0) : Type 0 where
  pub same_kept :
      (d d' : OrderDb) → d'.orders ≡ d.orders → d'.order_events ≡ d.order_events → P d → P d'
  pub write_kept :
      (order user : ℕ) (role : Role) (lines : List PricedLine) (d d' : OrderDb)
      → Wrote order user role lines d d'
      → P d
      → P d'
  pub move_kept :
      (s : Session) (i : TransitionOrderInput) (d d' : OrderDb) (o : OrderRow) (r : OrderResult)
      → Advances s i d d' o r
      → P d
      → P d'

-- ===== src/Orders/Tables.antt =====
-- The order database: hasura/migrations/default, as the row types of
-- apps/workflow-service/src/db/order.repository.ts read it. Surrogate keys and timestamps that no
-- code reads are left out.
use ecommerce_orderflow.Prelude.{ℕ, String, List, Option}
use ecommerce_orderflow.Domain.Transitions.{OrderStatus, OrderAction, Role}
use ecommerce_orderflow.Runtime.{World}

pub record OrderRow : Type 0 where
  pub id : ℕ
  pub customer_id : ℕ
  pub status : OrderStatus
  pub total_cents : ℕ
  pub version : ℕ

pub record ProductRow : Type 0 where
  pub id : ℕ
  pub sku : String
  pub unit_price_cents : ℕ

pub record OrderItemRow : Type 0 where
  pub order_id : ℕ
  pub product_id : ℕ
  pub quantity : ℕ
  pub unit_price_cents : ℕ

-- The column `action`: the creation of an order, or a transition.
pub data EventAction : Type 0 where
  create : EventAction
  act : OrderAction → EventAction

pub record OrderEventRow : Type 0 where
  pub order_id : ℕ
  pub from_status : Option OrderStatus
  pub to_status : OrderStatus
  pub action : EventAction
  pub actor_id : Option ℕ
  pub actor_role : Option Role
  pub reason : Option String

pub record OrderResult : Type 0 where
  pub id : ℕ
  pub status : OrderStatus
  pub version : ℕ

pub data KeyStatus : Type 0 where
  in_progress succeeded failed : KeyStatus

pub record IdempotencyRow : Type 0 where
  pub operation : String
  pub actor_id : ℕ
  pub key : String
  pub fingerprint : String
  pub status : KeyStatus
  pub response : Option OrderResult

pub record OrderDb : Type 0 where
  pub users : List ℕ
  pub products : List ProductRow
  pub orders : List OrderRow
  pub order_items : List OrderItemRow
  pub order_events : List OrderEventRow
  pub idempotency_keys : List IdempotencyRow
  pub processed_events : List String

-- The labels of an increment of `orderflow_transitions_total`.
pub record TransitionLabels : Type 0 where
  pub action : OrderAction
  pub from : OrderStatus
  pub to : OrderStatus
  pub role : Role

-- A counter is the list of the label sets that it was incremented with, the latest first.
pub record OrderMetrics : Type 0 where
  pub transitions : List TransitionLabels
  pub orders_placed : List Role

abbrev pub Orders : Type 0
Orders = World OrderDb OrderMetrics

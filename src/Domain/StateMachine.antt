-- ===== src/Domain/StateMachine.antt =====
-- state-machine.ts and errors.ts of packages/domain/src: the role-aware gate.
use ecommerce_orderflow.Prelude.{ℕ, ℤ, Option, none, some, if◌then◌else◌}
use ecommerce_orderflow.Domain.Transitions.{
  OrderStatus, OrderAction, Role, TransitionRule, find_rule, includes_role,
}

-- The classes below `DomainError`. Product ids are UUIDs, as 128-bit numbers; none is the text
-- "unknown", which the order service puts where a reply names no product.
pub data DomainError : Type 0 where
  illegal_transition : OrderStatus → OrderAction → DomainError
  forbidden_transition : Role → OrderAction → OrderStatus → DomainError
  insufficient_stock : Option ℕ → ℕ → ℤ → DomainError

pub record TransitionInput : Type 0 where
  pub current : OrderStatus
  pub action : OrderAction
  pub role : Role

pub record TransitionResult : Type 0 where
  pub from : OrderStatus
  pub to : OrderStatus
  pub action : OrderAction

-- A call that returns or throws.
pub data Outcome : Type 0 where
  moved : TransitionResult → Outcome
  refused : DomainError → Outcome

gate : TransitionInput → Option TransitionRule → Outcome
gate i none = refused (illegal_transition i.current i.action)
gate i (some rule) =
    if includes_role i.role rule.allowed_roles
    then moved (record { from = i.current; to = rule.to; action = i.action })
    else refused (forbidden_transition i.role i.action i.current)

unfoldable pub apply_transition : TransitionInput → Outcome
unfolding find_rule gate
apply_transition i = gate i (find_rule i.current i.action)

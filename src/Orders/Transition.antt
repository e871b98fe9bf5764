-- ===== src/Orders/Transition.antt =====
-- `transitionOrder` of apps/workflow-service/src/orders/orders.service.ts. Spans and log lines are
-- left out.
use ecommerce_orderflow.Prelude.{
  ℕ, String, ◌∷◌, Bool, false, not, Option, none, some, ◌==◌, if◌then◌else◌,
}
use ecommerce_orderflow.Runtime.{ok, pure, throw, ◌>>=◌, ◌>>◌}
use ecommerce_orderflow.Domain.Transitions.{OrderAction, Role, customer, ops, business_admin}
use ecommerce_orderflow.Domain.StateMachine.{
  DomainError, TransitionResult, Outcome, moved, refused, apply_transition,
}
use ecommerce_orderflow.Domain.Gate.{input}
use ecommerce_orderflow.Orders.Errors.{domain, order_not_found, version_conflict}
use ecommerce_orderflow.Orders.Tables.{OrderRow, OrderEventRow, act, OrderResult, TransitionLabels}
use ecommerce_orderflow.Orders.Repository.{
  Tx, transaction, get_order_for_update, update_status, insert_event,
}

-- A session variable that is missing or null is none.
pub record Session : Type 0 where
  pub role : Role
  pub user_id : Option ℕ

pub record TransitionOrderInput : Type 0 where
  pub order_id : ℕ
  pub action : OrderAction
  pub expected_version : Option ℕ
  pub reason : Option String

abbrev pub is_user : ℕ → Option ℕ → Bool
is_user c none = false
is_user c (some u) = c == u

-- `session.role === "customer" && order.customer_id !== session.userId`
abbrev pub is_foreign : Session → Role → OrderRow → Bool
is_foreign s customer o = not (is_user o.customer_id s.user_id)
is_foreign s ops o = false
is_foreign s business_admin o = false

-- `expectedVersion !== undefined && expectedVersion !== order.version`
abbrev pub is_stale : Option ℕ → OrderRow → Option ℕ
is_stale none o = none
is_stale (some v) o = if v == o.version then none else some v

abbrev pub count_transition : TransitionLabels → Tx (Unit {0})
count_transition l w =
    (ok tt, record w { metrics = record w.metrics { transitions = l ∷ w.metrics.transitions } })

abbrev pub event_of : Session → TransitionOrderInput → OrderRow → TransitionResult → OrderEventRow
event_of s i o m = record {
  order_id = o.id;
  from_status = some m.from;
  to_status = m.to;
  action = act i.action;
  actor_id = s.user_id;
  actor_role = some s.role;
  reason = i.reason;
}

-- What follows the domain gate.
abbrev pub write_transition :
    Session → TransitionOrderInput → OrderRow → TransitionResult → Tx OrderResult
write_transition s i o m = do
  version ← update_status o.id m.to
  insert_event (event_of s i o m)
  count_transition (record { action = i.action; from = m.from; to = m.to; role = s.role })
  pure (record { id = o.id; status = m.to; version = version })

abbrev pub pass_gate : Session → TransitionOrderInput → OrderRow → Outcome → Tx OrderResult
pass_gate s i o (refused e) = throw (domain e)
pass_gate s i o (moved m) = write_transition s i o m

abbrev pub check_version : Session → TransitionOrderInput → OrderRow → Option ℕ → Tx OrderResult
check_version s i o (some v) = throw (version_conflict o.id v o.version o.status)
check_version s i o none = pass_gate s i o (apply_transition (input o.status i.action s.role))

abbrev pub act_on : Session → TransitionOrderInput → Option OrderRow → Tx OrderResult
act_on s i none = throw (order_not_found i.order_id)
act_on s i (some o) =
    if is_foreign s s.role o
    then throw (domain (DomainError.forbidden_transition s.role i.action o.status))
    else check_version s i o (is_stale i.expected_version o)

unfoldable pub transition_in : Session → TransitionOrderInput → Tx OrderResult
transition_in s i = get_order_for_update i.order_id >>= act_on s i

unfoldable pub transition_order : Session → TransitionOrderInput → Tx OrderResult
transition_order s i = transaction (transition_in s i)

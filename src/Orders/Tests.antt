-- ===== src/Orders/Tests.antt =====
-- Runs of the order workflow, and the theorems at concrete inputs.
use ecommerce_orderflow.Prelude.{◌≡◌, refl, ◌⊎◌, inr, [], ◌∷◌, none, some, arith}
use ecommerce_orderflow.Runtime.{ok, err, commit_refused, with_transaction}
use ecommerce_orderflow.Domain.Transitions.{
  pending, confirmed, confirm, cancel, ops, business_admin,
}
use ecommerce_orderflow.Orders.Errors.{version_conflict}
use ecommerce_orderflow.Orders.Tables.{OrderRow, OrderResult, Orders}
use ecommerce_orderflow.Orders.Repository.{
  update_status, get_order_for_update, get_order_by_id, insert_event, mark_event_processed,
  transaction,
}
use ecommerce_orderflow.Domain.StateMachine.{apply_transition}
use ecommerce_orderflow.Orders.Transition.{
  Session, TransitionOrderInput, transition_in, transition_order,
}
use ecommerce_orderflow.Orders.Revision.{
  Advances, transition_in-Advances, transition_order_atomic, transition_in-raced,
}
use ecommerce_orderflow.Prelude.{ℕ, ◌↔◌, Option, String}
use ecommerce_orderflow.Orders.Edge.{
  SessionVariables, parse_session, HasuraEventBody, event_ok, event_skipped, handle_order_event,
  order_event,
}
use ecommerce_orderflow.Orders.Edge.Sessions.{role_name, parse_session_iff}
use ecommerce_orderflow.Orders.Revision.Accepts.{transition_in-accepts}
use ecommerce_orderflow.Domain.Gate.{confirming, ops_staff}

-- User 4 is a customer, 8 an operator, 9 an administrator; order 1 of user 4 is new.
abbrev pub order : OrderRow
order = record { id = 1; customer_id = 4; status = pending; total_cents = 900; version = 1 }

abbrev pub office : Orders
office = record {
  db = record {
    users = 4 ∷ 8 ∷ 9 ∷ [];
    products = [];
    orders = order ∷ [];
    order_items = [];
    order_events = [];
    idempotency_keys = [];
    processed_events = [];
  };
  metrics = record { transitions = []; orders_placed = [] };
  faults = [];
}

abbrev operator : Session
operator = record { role = ops; user_id = some 8 }

abbrev admin : Session
admin = record { role = business_admin; user_id = some 9 }

abbrev confirmation : TransitionOrderInput
confirmation = record { order_id = 1; action = confirm; expected_version = some 1; reason = none }

abbrev cancellation : TransitionOrderInput
cancellation = record {
  order_id = 1;
  action = cancel;
  expected_version = some 1;
  reason = some "late";
}

abbrev confirmed_order : OrderResult
confirmed_order = record { id = 1; status = confirmed; version = 2 }

confirmation_accepted : (transition_in operator confirmation office).0 ≡ ok confirmed_order
unfolding transition_in get_order_for_update update_status insert_event apply_transition
confirmation_accepted = refl

transition_in-Advances_example :
    (o : OrderRow) × Advances operator confirmation office.db
      (transition_in operator confirmation office).1.db
      o
      confirmed_order
transition_in-Advances_example =
    transition_in-Advances operator confirmation office confirmed_order confirmation_accepted

transition_order_atomic_example :
    ((transition_order admin cancellation (record office { faults = commit_refused ∷ [] })).1.db
      ≡ office.db)
    ⊎ ((o : OrderRow) × (r : OrderResult) × Advances admin cancellation office.db
          (transition_order admin cancellation
            (record office { faults = commit_refused ∷ [] })).1.db
          o
          r)
transition_order_atomic_example =
    transition_order_atomic admin cancellation (record office { faults = commit_refused ∷ [] })

transition_in-raced_example :
    transition_in admin cancellation (transition_in operator confirmation office).1
    ≡ (err (version_conflict 1 1 2 confirmed), (transition_in operator confirmation office).1)
transition_in-raced_example =
    transition_in-raced operator admin confirmation cancellation office confirmed_order 1
      confirmation_accepted refl refl refl (ground arith)

-- A reading of UUIDs that knows one user.
abbrev one_user : String → Option ℕ
one_user t = some 8

abbrev operator_variables : SessionVariables
operator_variables = record { role = some "ops"; user_id = some "the operator" }

parse_session_iff_example : (parse_session one_user operator_variables ≡ ok operator) ↔ (
    (operator_variables.role ≡ some (role_name ops))
    × (((operator_variables.user_id ≡ none) × (operator.user_id ≡ none))
        ⊎ ((t : String) × (n : ℕ) × (operator_variables.user_id ≡ some t)
            × (one_user t ≡ some n)
            × (operator.user_id ≡ some n))))
parse_session_iff_example = parse_session_iff one_user operator_variables operator

transition_in-accepts_example : (transition_in operator confirmation office).0 ≡ ok confirmed_order
transition_in-accepts_example =
    transition_in-accepts operator confirmation office order confirmed refl (λ e. cc) (inr refl)
      (confirming ops_staff) refl refl

found_order : (get_order_by_id 1 office).0 ≡ ok (some order)
unfolding get_order_by_id
found_order = refl

abbrev delivery : HasuraEventBody
delivery = record { id = "e1"; row = none }

-- The trigger delivers at least once.
delivered_twice :
    let (r, w) = order_event delivery office in
    (r ≡ ok event_ok) × ((order_event delivery w).0 ≡ ok event_skipped)
unfolding order_event handle_order_event mark_event_processed transaction with_transaction
delivered_twice = (refl, refl)

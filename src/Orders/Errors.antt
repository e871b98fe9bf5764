-- ===== src/Orders/Errors.antt =====
-- apps/workflow-service/src/orders/errors.ts, with the other values that a call can throw, and their
-- replies by apps/workflow-service/src/common/action-error.ts.
use ecommerce_orderflow.Prelude.{ℕ, String}
use ecommerce_orderflow.Domain.Transitions.{OrderStatus}
use ecommerce_orderflow.Domain.StateMachine.{DomainError}

-- `domain` are the errors of the domain package; `other_error` is any error that nothing names.
pub data Thrown : Type 0 where
  domain : DomainError → Thrown
  order_not_found : ℕ → Thrown
  unknown_product : ℕ → Thrown
  unauthenticated : Thrown
  idempotency_conflict : String → Thrown
  version_conflict : ℕ → ℕ → ℕ → OrderStatus → Thrown
  zod_error : Thrown
  other_error : Thrown

-- The `code` of a rejection.
pub data Code : Type 0 where
  bad_input illegal_transition forbidden insufficient_stock not_found unknown_product : Code
  unauthenticated internal version_conflict idempotency_conflict : Code

-- `classify`
unfoldable pub classify : Thrown → Code
classify zod_error = Code.bad_input
classify (domain (DomainError.illegal_transition s a)) = Code.illegal_transition
classify (domain (DomainError.forbidden_transition r a s)) = Code.forbidden
classify (domain (DomainError.insufficient_stock p q n)) = Code.insufficient_stock
classify (order_not_found o) = Code.not_found
classify (Thrown.unknown_product p) = Code.unknown_product
classify Thrown.unauthenticated = Code.unauthenticated
classify _ = Code.internal

abbrev status_of : Code → ℕ
status_of internal = 500
status_of not_found = 404
status_of Code.unknown_product = 404
status_of forbidden = 403
status_of Code.unauthenticated = 403
status_of insufficient_stock = 409
status_of _ = 400

-- The status and the code; the message is left out.
pub record ActionException : Type 0 where
  pub status : ℕ
  pub code : Code

unfoldable pub to_action_exception : Thrown → ActionException
unfolding classify
to_action_exception (Thrown.version_conflict o expected actual current) = record {
  status = 409;
  code = Code.version_conflict;
}
to_action_exception (Thrown.idempotency_conflict key) = record {
  status = 409;
  code = Code.idempotency_conflict;
}
to_action_exception e = record { status = status_of (classify e); code = classify e }

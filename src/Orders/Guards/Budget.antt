-- ===== src/Orders/Guards/Budget.antt =====
-- What burns the error budget that observability/metrics.interceptor.ts of both services keeps.
use ecommerce_orderflow.Prelude.{ℕ, none, ◌≡◌, ◌↔◌, ◌⊎◌, inl, inr, refl}
use ecommerce_orderflow.Runtime.{
  err, Fault, healthy, no_connection, commit_refused, commit_unacknowledged, throw, next_fault,
  attempt, with_transaction,
}
use ecommerce_orderflow.Runtime.Laws.{begun}
use ecommerce_orderflow.Inventory.Tables.{Inventory}
use ecommerce_orderflow.Inventory.Repository.{Tx, transaction}
use ecommerce_orderflow.Inventory.Service.Reserve.{confirm}
use ecommerce_orderflow.Inventory.Service.Settle.{release}
use ecommerce_orderflow.Inventory.Api.{answer, for_order, post_confirm, post_release}
use ecommerce_orderflow.Domain.StateMachine.{DomainError}
use ecommerce_orderflow.Inventory.Errors.{
  BusinessError, InfrastructureError, business, infrastructure, Thrown as StockThrown,
  other_error as stock_other, zod_error as stock_zod,
}
use ecommerce_orderflow.Inventory.Http.{to_http_exception}
use ecommerce_orderflow.Orders.Errors.{
  Thrown, domain, order_not_found, idempotency_conflict, version_conflict, other_error, zod_error,
  to_action_exception, classify as code_of,
}
use ecommerce_orderflow.Orders.Guards.{server_error, classify}

order_budget :
    (e : Thrown) → (classify (to_action_exception e).status ≡ server_error) ↔ (e ≡ other_error)
unfolding classify to_action_exception code_of
order_budget (domain (DomainError.illegal_transition s a)) = (λ h. cc, λ h. cc)
order_budget (domain (DomainError.forbidden_transition r a s)) = (λ h. cc, λ h. cc)
order_budget (domain (DomainError.insufficient_stock p q n)) = (λ h. cc, λ h. cc)
order_budget (order_not_found o) = (λ h. cc, λ h. cc)
order_budget (Thrown.unknown_product p) = (λ h. cc, λ h. cc)
order_budget Thrown.unauthenticated = (λ h. cc, λ h. cc)
order_budget (idempotency_conflict k) = (λ h. cc, λ h. cc)
order_budget (version_conflict o v w s) = (λ h. cc, λ h. cc)
order_budget zod_error = (λ h. cc, λ h. cc)
order_budget other_error = (λ h. refl, λ h. refl)

-- An error of the storage, or one that nothing names.
abbrev pub IsFailure : StockThrown → Type 0
IsFailure e = (e ≡ stock_other) ⊎ ((i : InfrastructureError) × (e ≡ infrastructure i))

no_failure : (b : BusinessError) → IsFailure (business b) → ⊥
no_failure b (inl e) = cc
no_failure b (inr (i, e)) = cc

zod_no_failure : IsFailure stock_zod → ⊥
zod_no_failure (inl e) = cc
zod_no_failure (inr (i, e)) = cc

stock_budget :
    (e : StockThrown) → (classify (to_http_exception e).status ≡ server_error) ↔ IsFailure e
unfolding classify to_http_exception
stock_budget (business (BusinessError.insufficient_stock p q n)) =
    (λ h. cc, λ h. absurd (no_failure _ h))
stock_budget (business (BusinessError.unknown_stock_item p)) =
    (λ h. cc, λ h. absurd (no_failure _ h))
stock_budget (business (BusinessError.reservation_not_found o)) =
    (λ h. cc, λ h. absurd (no_failure _ h))
stock_budget (business (BusinessError.reservation_conflict o p q n)) =
    (λ h. cc, λ h. absurd (no_failure _ h))
stock_budget stock_zod = (λ h. cc, λ h. absurd (zod_no_failure h))
stock_budget (infrastructure i) = (λ h. inr (i, refl), λ h. refl)
stock_budget stock_other = (λ h. inl refl, λ h. refl)

-- The transaction for a malformed order id, under each fault.
refused_lem :
    (f : Fault) (w : Inventory)
    → (attempt f stock_other (throw {A = ℕ} stock_other) (begun w)).0 ≡ err stock_other
refused_lem healthy w = refl
refused_lem no_connection w = refl
refused_lem commit_refused w = refl
refused_lem commit_unacknowledged w = refl

unchanged_lem :
    (f : Fault) (w : Inventory)
    → (attempt f stock_other (throw {A = ℕ} stock_other) (begun w)).1.db ≡ w.db
unchanged_lem healthy w = refl
unchanged_lem no_connection w = refl
unchanged_lem commit_refused w = refl
unchanged_lem commit_unacknowledged w = refl

malformed_lem :
    (call : ℕ → Tx ℕ) (w : Inventory)
    → (classify (answer (for_order call none) w).0.status ≡ server_error)
      × ((answer (for_order call none) w).1.db ≡ w.db)
unfolding answer transaction with_transaction classify to_http_exception
malformed_lem call w =
    (rw (refused_lem (next_fault w.faults) w) refl, unchanged_lem (next_fault w.faults) w)

-- In the histogram of each service, an error that a handler threw counts as the server's exactly when it is
-- one that nothing names or, in the inventory service, an error of the storage: no rejection on the grounds
-- of the business or by a schema burns the error budget. A path of `confirm` or `release` whose order id is no
-- UUID does burn it: no schema checks it, PostgreSQL throws, and the reply is 500, with the database as it was.
pub budget_iff :
    (e : Thrown) (f : StockThrown) (w : Inventory)
    → ((classify (to_action_exception e).status ≡ server_error) ↔ (e ≡ other_error))
      × ((classify (to_http_exception f).status ≡ server_error) ↔ IsFailure f)
      × (classify (post_confirm none w).0.status ≡ server_error)
      × ((post_confirm none w).1.db ≡ w.db)
      × (classify (post_release none w).0.status ≡ server_error)
      × ((post_release none w).1.db ≡ w.db)
unfolding post_confirm post_release
budget_iff e f w =
    let (p, q) = malformed_lem confirm w in
    let (r, s) = malformed_lem (λ o. release o "released by order service") w in
    (order_budget e, stock_budget f, p, q, r, s)

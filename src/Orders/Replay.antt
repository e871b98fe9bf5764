-- ===== src/Orders/Replay.antt =====
-- The idempotency keys of `placeOrder`, apps/workflow-service/src/orders/orders.service.ts: what a
-- retry of a request that was answered does.
pub mod Remembered
use ecommerce_orderflow.Prelude.{
  ℕ, ◌≡◌, refl, sym, ap, subst, ◌∙◌, String, str_eq, eq_iff, List, true, Option, none, some, inl,
  inr, find, find-map_if, find-append, ==_self, arith, Bool-cases,
}
use ecommerce_orderflow.Runtime.{
  Result, ok, err, ◌>>=◌, pure, throw, with_transaction, next_fault, later_faults, healthy,
}
use ecommerce_orderflow.Runtime.Laws.{
  Ensures, Ensures-ok, bind-Ensures, begun, with_transaction-Ensures,
}
use ecommerce_orderflow.Inventory.Service.Record.{Line}
use ecommerce_orderflow.Orders.Errors.{Thrown, other_error}
use ecommerce_orderflow.Orders.Tables.{
  OrderResult, KeyStatus, in_progress, succeeded, failed, IdempotencyRow, Orders,
}
use ecommerce_orderflow.Orders.Repository.{
  transaction, Claim, claimed, conflict, claim_in_progress, replay, same_key, fresh_key,
  claim_by_status, earlier_claim, claim_row, claim_idempotency_key, complete_idempotency_key,
  fail_idempotency_key,
}
use ecommerce_orderflow.Orders.Transition.{Session}
use ecommerce_orderflow.Orders.Client.{System, on_orders}
use ecommerce_orderflow.Orders.Placement.{
  Env, PlaceOrderInput, operation, place_order_inner, fail_key, complete_key, attempt_with_key,
  by_claim, place_keyed, place_order,
}
use ecommerce_orderflow.Orders.Keys.{SagaKeyed, place_order_inner-Keyed}
use ecommerce_orderflow.Orders.Replay.Remembered.{Remembers, place_keyed-Remembers}

-- A request whose answer is on record is answered from the record.
replays :
    (env : Env) (session : Session) (user : ℕ) (items : List Line) (key : String) (s : System)
    (r : OrderResult)
    → Remembers user key (env.fingerprint items) (some r) s.orders
    → next_fault s.orders.faults ≡ healthy
    → place_keyed env session user items (some key) s ≡ (ok r, record s { orders = begun s.orders })
unfolding transaction with_transaction claim_idempotency_key earlier_claim
replays env session user items key s r (row, c, st, rs) f = rw (f, c.0, c.1, st, rs)

pub keyed_lem :
    (env : Env) (session : Session) (input : PlaceOrderInput) (user : ℕ) (key : String) (s : System)
    → session.user_id ≡ some user
    → input.idempotency_key ≡ some key
    → place_order env session input s ≡ place_keyed env session user input.items (some key) s
unfolding place_order
keyed_lem env session input user key s u k = rw (u, k)

-- An answer is on record.
pub answered-Remembers :
    (env : Env) (session : Session) (input : PlaceOrderInput) (user : ℕ) (key : String) (s : System)
    (r : OrderResult)
    → session.user_id ≡ some user
    → input.idempotency_key ≡ some key
    → (place_order env session input s).0 ≡ ok r
    → Remembers user key
        (env.fingerprint input.items)
        (some r)
        (place_order env session input s).1.orders
answered-Remembers env session input user key s r u k e =
    Ensures-ok (λ x s'. Remembers user key (env.fingerprint input.items) (some x) s'.orders)
      (place_order env session input s) r e
      (subst (Ensures (λ x s'. Remembers user key (env.fingerprint input.items) (some x) s'.orders))
        (sym (keyed_lem env session input user key s u k))
        (place_keyed-Remembers env session user input.items key s))

-- A retry is safe after an answer: once `placeOrder` has answered a request with a key, the same
-- request with the same key gets the same answer, if the claim's transaction meets no fault, whatever
-- order id and clock the retry draws; neither database, no counter and no message of the network
-- changes, and one transaction has run.
pub place_order_retried :
    (env env' : Env) (session : Session) (input : PlaceOrderInput) (user : ℕ) (key : String)
    (s : System) (r : OrderResult)
    → session.user_id ≡ some user
    → input.idempotency_key ≡ some key
    → env'.fingerprint input.items ≡ env.fingerprint input.items
    → (place_order env session input s).0 ≡ ok r
    → next_fault (place_order env session input s).1.orders.faults ≡ healthy
    → place_order env' session input (place_order env session input s).1 ≡ (
      ok r,
      record (place_order env session input s).1 {
        orders = record (place_order env session input s).1.orders {
          faults = later_faults (place_order env session input s).1.orders.faults;
        };
      },
    )
place_order_retried env env' session input user key s r u k p e f =
    let s₁ = (place_order env session input s).1 in
    keyed_lem env' session input user key s₁ u k
    ∙ replays env' session user input.items key s₁ r
        (subst (λ q. Remembers user key q (some r) s₁.orders) (sym p)
          (answered-Remembers env session input user key s r u k e))
        f

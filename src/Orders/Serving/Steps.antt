-- ===== src/Orders/Serving/Steps.antt =====
-- The steps of `placeOrder`, apps/workflow-service/src/orders/orders.service.ts, that touch neither the
-- orders nor their events.
use ecommerce_orderflow.Prelude.{ℕ, refl, String, List, Option, none, some, arith}
use ecommerce_orderflow.Runtime.{pure, ◌>>=◌}
use ecommerce_orderflow.Runtime.Laws.{Ensures, begun, with_transaction-keeps}
use ecommerce_orderflow.Inventory.Tables.{Inventory}
use ecommerce_orderflow.Inventory.Service.Record.{Line}
use ecommerce_orderflow.Inventory.Api.{Reply, post_reservation, post_confirm, post_release}
use ecommerce_orderflow.Orders.Errors.{Thrown, other_error}
use ecommerce_orderflow.Orders.Tables.{IdempotencyRow, OrderResult, OrderDb, Orders}
use ecommerce_orderflow.Orders.Repository.{
  Tx, transaction, claim_row, claim_idempotency_key, complete_idempotency_key, fail_idempotency_key,
}
use ecommerce_orderflow.Orders.Client.{
  Delivery, delivered, request_lost, reply_lost, System, Saga, on_orders, deliver_request, send,
  check_reserved, check_ok, reserve_stock, confirm_stock, release_quietly,
}
use ecommerce_orderflow.Orders.Serving.{IsKept}
use ecommerce_orderflow.Orders.Serving.Calls

module _ (P : OrderDb → Type 0) where
  -- A step that keeps a property of the order database, whether it returns or throws.
  abbrev pub Keeps : {A : Type 0} → Saga A → Type 0
  Keeps call = (s : System) → P s.orders.db → P (call s).1.orders.db

  bind-Keeps :
      {A B : Type 0} (m : Saga A) (f : A → Saga B)
      → Keeps m
      → ((a : A) → Keeps (f a))
      → Keeps (m >>= f)
  bind-Keeps = Calls.bind-Keeps (λ s. P s.orders.db)

  -- A transaction whose body keeps it when it returns.
  pub transaction-Keeps :
      {A : Type 0} (body : Tx A)
      → ((w : Orders) → P w.db → Ensures (λ _ w'. P w'.db) (body w))
      → Keeps (on_orders (transaction body))
  unfolding transaction
  transaction-Keeps body k s h =
      with_transaction-keeps P other_error body s.orders h (k (begun s.orders) h)

  pure-Keeps : {A : Type 0} (a : A) → Keeps (pure {S = System} {E = Thrown} a)
  pure-Keeps a s h = h

  deliver_request-Keeps :
      (d : Delivery) (route : Inventory → Reply × Inventory) → Keeps (deliver_request d route)
  deliver_request-Keeps delivered route s h = h
  deliver_request-Keeps request_lost route s h = h
  deliver_request-Keeps reply_lost route s h = h

  send-Keeps : (route : Inventory → Reply × Inventory) → Keeps (send route)
  unfolding send
  send-Keeps route s h = deliver_request-Keeps _ route _ h

  check_reserved-Keeps : (r : Reply) → Keeps (check_reserved r)
  check_reserved-Keeps r s h = ground (arith, h)

  check_ok-Keeps : (r : Reply) → Keeps (check_ok r)
  check_ok-Keeps r s h = ground (arith, h)

  pub reserve_stock-Keeps : (ttl now o : ℕ) (ls : List Line) → Keeps (reserve_stock ttl now o ls)
  unfolding reserve_stock
  reserve_stock-Keeps ttl now o ls =
      let route = post_reservation ttl now (record { order_id = o; items = ls }) in
      bind-Keeps (send route) check_reserved (send-Keeps route) check_reserved-Keeps

  pub confirm_stock-Keeps : (o : ℕ) → Keeps (confirm_stock o)
  unfolding confirm_stock
  confirm_stock-Keeps o =
      bind-Keeps (send (post_confirm (some o))) check_ok (send-Keeps (post_confirm (some o)))
        check_ok-Keeps

  pub release_quietly-Keeps : (o : ℕ) → Keeps (release_quietly o)
  unfolding release_quietly
  release_quietly-Keeps o s h = send-Keeps (post_release (some o)) s h

module _ (P : OrderDb → Type 0) (kept : IsKept P) where
  claim_row-Keeps :
      (new : IdempotencyRow) (x : Option IdempotencyRow) (w : Orders)
      → P w.db
      → Ensures (λ _ w'. P w'.db) (claim_row new x w)
  claim_row-Keeps new none w a = kept.same_kept w.db _ refl refl a
  claim_row-Keeps new (some r) w a = a

  pub claim-Keeps :
      (op : String) (user : ℕ) (key print : String)
      → Keeps P (on_orders (transaction (claim_idempotency_key op user key print)))
  unfolding claim_idempotency_key
  claim-Keeps op user key print =
      transaction-Keeps P (claim_idempotency_key op user key print) (λ w a. claim_row-Keeps _ _ w a)

  pub complete-Keeps :
      (op : String) (user : ℕ) (key : String) (r : OrderResult)
      → Keeps P (on_orders (transaction (complete_idempotency_key op user key r)))
  unfolding complete_idempotency_key
  complete-Keeps op user key r =
      transaction-Keeps P (complete_idempotency_key op user key r)
        (λ w a. kept.same_kept w.db _ refl refl a)

  pub fail-Keeps :
      (op : String) (user : ℕ) (key : String)
      → Keeps P (on_orders (fail_idempotency_key op user key))
  unfolding fail_idempotency_key
  fail-Keeps op user key = transaction-Keeps P _ (λ w a. kept.same_kept w.db _ refl refl a)

-- ===== src/Orders/Keys.antt =====
-- The idempotency keys of `placeOrder`, apps/workflow-service/src/orders/orders.service.ts: which calls
-- leave the keys as they are.
use ecommerce_orderflow.Prelude.{
  ℕ, ◌≡◌, List, [], ◌∷◌, map, Option, none, some, find, filter, any, ◌==◌, arith,
}
use ecommerce_orderflow.Runtime.{Result, ok, err, ◌>>=◌, ◌>>◌, pure}
use ecommerce_orderflow.Runtime.Laws.{Ensures, bind-Ensures, begun, with_transaction-Ensures}
use ecommerce_orderflow.Domain.Transitions.{Role}
use ecommerce_orderflow.Inventory.Tables.{Inventory}
use ecommerce_orderflow.Inventory.Service.Record.{Line}
use ecommerce_orderflow.Inventory.Api.{Reply, post_reservation, post_confirm}
use ecommerce_orderflow.Orders.Errors.{Thrown, other_error}
use ecommerce_orderflow.Orders.Tables.{
  ProductRow, OrderItemRow, OrderEventRow, OrderResult, IdempotencyRow, Orders,
}
use ecommerce_orderflow.Orders.Repository.{
  Tx, transaction, find_products, create_order, insert_item, insert_event,
}
use ecommerce_orderflow.Orders.Transition.{Session}
use ecommerce_orderflow.Orders.Client.{
  Delivery, delivered, request_lost, reply_lost, System, on_orders, send, deliver_request,
  check_reserved, check_ok, reserve_stock, confirm_stock, release_quietly,
}
use ecommerce_orderflow.Orders.Placement.{
  Env, PricedLine, price_found, price_lines, total_cents, price_in, price_order, insert_items,
  created_event, item_of, result_of, write_order, compensate, write_or_release, count_placed,
  place_order_inner,
}

-- The keys of the order database are `ks`.
abbrev pub Keyed : {A : Type 0} → List IdempotencyRow → A → Orders → Type 0
Keyed ks _ w = w.db.idempotency_keys ≡ ks

abbrev pub SagaKeyed : {A : Type 0} → List IdempotencyRow → A → System → Type 0
SagaKeyed ks _ s = s.orders.db.idempotency_keys ≡ ks

module _ (ks : List IdempotencyRow) where
  create_order-Keyed :
      (u t o : ℕ) (w : Orders)
      → w.db.idempotency_keys ≡ ks
      → Ensures (Keyed ks) (create_order u t o w)
  unfolding create_order
  create_order-Keyed u t o w k = ground arith

  insert_item-Keyed :
      (i : OrderItemRow) (w : Orders)
      → w.db.idempotency_keys ≡ ks
      → Ensures (Keyed ks) (insert_item i w)
  unfolding insert_item
  insert_item-Keyed i w k = ground arith

  insert_event-Keyed :
      (e : OrderEventRow) (w : Orders)
      → w.db.idempotency_keys ≡ ks
      → Ensures (Keyed ks) (insert_event e w)
  unfolding insert_event
  insert_event-Keyed e w k = ground arith

  insert_items-Keyed :
      (o : ℕ) (ls : List PricedLine) (w : Orders)
      → w.db.idempotency_keys ≡ ks
      → Ensures (Keyed ks) (insert_items o ls w)
  unfolding insert_items
  insert_items-Keyed o [] w k = k
  insert_items-Keyed o (l ∷ ls) w k =
      bind-Ensures (Keyed ks) (Keyed ks) (insert_item (item_of o l)) (λ _. insert_items o ls) w
        (insert_item-Keyed (item_of o l) w k) (λ _ w₁ k₁. insert_items-Keyed o ls w₁ k₁)

  price_found-Keyed :
      (l : Line) (p : Option ProductRow) (w : Orders)
      → w.db.idempotency_keys ≡ ks
      → Ensures (Keyed ks) (price_found l p w)
  price_found-Keyed l none w k = tt
  price_found-Keyed l (some p) w k = k

  price_lines-Keyed :
      (ps : List ProductRow) (ls : List Line) (w : Orders)
      → w.db.idempotency_keys ≡ ks
      → Ensures (Keyed ks) (price_lines ps ls w)
  price_lines-Keyed ps [] w k = k
  price_lines-Keyed ps (l ∷ ls) w k =
      bind-Ensures (Keyed ks) (Keyed ks) (price_found l (find (λ p. p.id == l.product_id) ps))
        (λ x. price_lines ps ls >>= λ xs. pure (x ∷ xs)) w
        (price_found-Keyed l (find (λ p. p.id == l.product_id) ps) w k)
        λ x w₁ k₁.
          bind-Ensures (Keyed ks) (Keyed ks) (price_lines ps ls) (λ xs. pure (x ∷ xs)) w₁
            (price_lines-Keyed ps ls w₁ k₁) (λ _ w₂ k₂. k₂)

  write_order-Keyed :
      (o u : ℕ) (r : Role) (ls : List PricedLine) (w : Orders)
      → w.db.idempotency_keys ≡ ks
      → Ensures (Keyed ks) (write_order o u r ls w)
  unfolding write_order
  write_order-Keyed o u r ls w k =
      bind-Ensures (Keyed ks) (Keyed ks) (create_order u (total_cents ls) o)
        (λ c. insert_items c.id ls >> (insert_event (created_event u r c) >> pure (result_of c))) w
        (create_order-Keyed u (total_cents ls) o w k)
        λ c w₁ k₁.
          bind-Ensures (Keyed ks) (Keyed ks) (insert_items c.id ls)
            (λ _. insert_event (created_event u r c) >> pure (result_of c)) w₁
            (insert_items-Keyed c.id ls w₁ k₁)
            λ _ w₂ k₂.
              bind-Ensures (Keyed ks) (Keyed ks) (insert_event (created_event u r c))
                (λ _. pure (result_of c)) w₂ (insert_event-Keyed (created_event u r c) w₂ k₂)
                (λ _ w₃ k₃. k₃)

  price_in-Keyed :
      (ls : List Line) (w : Orders)
      → w.db.idempotency_keys ≡ ks
      → Ensures (Keyed ks) (price_in ls w)
  unfolding price_in find_products
  price_in-Keyed ls w k =
      price_lines-Keyed
        (filter (λ p. any (λ i. i == p.id) (map (λ l. l.product_id) ls)) w.db.products) ls w k

  lifted-Keyed :
      {A : Type 0} (x : Result Thrown A × Orders) (s : System)
      → Ensures (Keyed ks) x
      → Ensures (SagaKeyed ks) (x.0, record s { orders = x.1 })
  lifted-Keyed (ok a, w) s h = h
  lifted-Keyed (err e, w) s h = tt

  pub on_orders-Keyed :
      {A : Type 0} (call : Tx A) (s : System)
      → Ensures (Keyed ks) (call s.orders)
      → Ensures (SagaKeyed ks) (on_orders call s)
  on_orders-Keyed call s h = lifted-Keyed (call s.orders) s h

  deliver_request-Keyed :
      (d : Delivery) (route : Inventory → Reply × Inventory) (s : System)
      → s.orders.db.idempotency_keys ≡ ks
      → Ensures (SagaKeyed ks) (deliver_request d route s)
  deliver_request-Keyed delivered route s k = k
  deliver_request-Keyed request_lost route s k = tt
  deliver_request-Keyed reply_lost route s k = tt

  send-Keyed :
      (route : Inventory → Reply × Inventory) (s : System)
      → s.orders.db.idempotency_keys ≡ ks
      → Ensures (SagaKeyed ks) (send route s)
  unfolding send
  send-Keyed route s k = deliver_request-Keyed _ route _ k

  check_reserved-Keyed :
      (r : Reply) (s : System)
      → s.orders.db.idempotency_keys ≡ ks
      → Ensures (SagaKeyed ks) (check_reserved r s)
  check_reserved-Keyed r s k = ground arith

  check_ok-Keyed :
      (r : Reply) (s : System)
      → s.orders.db.idempotency_keys ≡ ks
      → Ensures (SagaKeyed ks) (check_ok r s)
  check_ok-Keyed r s k = ground arith

  reserve_stock-Keyed :
      (ttl now o : ℕ) (ls : List Line) (s : System)
      → s.orders.db.idempotency_keys ≡ ks
      → Ensures (SagaKeyed ks) (reserve_stock ttl now o ls s)
  unfolding reserve_stock
  reserve_stock-Keyed ttl now o ls s k =
      bind-Ensures (SagaKeyed ks) (SagaKeyed ks)
        (send (post_reservation ttl now (record { order_id = o; items = ls }))) check_reserved s
        (send-Keyed (post_reservation ttl now (record { order_id = o; items = ls })) s k)
        check_reserved-Keyed

  confirm_stock-Keyed :
      (o : ℕ) (s : System)
      → s.orders.db.idempotency_keys ≡ ks
      → Ensures (SagaKeyed ks) (confirm_stock o s)
  unfolding confirm_stock
  confirm_stock-Keyed o s k =
      bind-Ensures (SagaKeyed ks) (SagaKeyed ks) (send (post_confirm (some o))) check_ok s
        (send-Keyed (post_confirm (some o)) s k) check_ok-Keyed

  compensate-Keyed :
      (o : ℕ) (x : Result Thrown OrderResult × System)
      → Ensures (SagaKeyed ks) x
      → Ensures (SagaKeyed ks) (compensate o x)
  unfolding release_quietly
  compensate-Keyed o (ok r, s) h = h
  compensate-Keyed o (err e, s) h = tt

  written_or_released :
      (env : Env) (session : Session) (user : ℕ) (lines : List PricedLine) (s : System)
      → s.orders.db.idempotency_keys ≡ ks
      → Ensures (SagaKeyed ks) (write_or_release env.order_id user session.role lines s)
  unfolding write_or_release transaction
  written_or_released env session user lines s k =
      let body = write_order env.order_id user session.role lines in
      compensate-Keyed env.order_id (on_orders (transaction body) s) (
        on_orders-Keyed (transaction body) s (
          with_transaction-Ensures (Keyed ks) other_error body s.orders
            (write_order-Keyed env.order_id user session.role lines (begun s.orders) k)))

  -- A placement that succeeds has not touched the keys.
  pub place_order_inner-Keyed :
      (env : Env) (session : Session) (user : ℕ) (ls : List Line) (s : System)
      → s.orders.db.idempotency_keys ≡ ks
      → Ensures (SagaKeyed ks) (place_order_inner env session user ls s)
  unfolding place_order_inner price_order transaction
  place_order_inner-Keyed env session user ls s k =
      let after_confirm =
        λ (o : OrderResult). on_orders (count_placed session.role) >>= λ _. pure o in
      let after_write = λ (o : OrderResult). confirm_stock env.order_id >>= λ _. after_confirm o in
      let after_reserve = λ (lines : List PricedLine).
        write_or_release env.order_id user session.role lines >>= after_write in
      bind-Ensures (SagaKeyed ks) (SagaKeyed ks) (on_orders (price_order ls))
        (λ lines. reserve_stock env.ttl env.now env.order_id ls >>= λ _. after_reserve lines) s
        (on_orders-Keyed (price_order ls) s (
          with_transaction-Ensures (Keyed ks) other_error (price_in ls) s.orders
            (price_in-Keyed ls (begun s.orders) k)))
        λ lines s₁ k₁.
          bind-Ensures (SagaKeyed ks) (SagaKeyed ks) (reserve_stock env.ttl env.now env.order_id ls)
            (λ _. after_reserve lines) s₁
            (reserve_stock-Keyed env.ttl env.now env.order_id ls s₁ k₁)
            λ _ s₂ k₂.
              bind-Ensures (SagaKeyed ks) (SagaKeyed ks)
                (write_or_release env.order_id user session.role lines) after_write s₂
                (written_or_released env session user lines s₂ k₂)
                λ o s₃ k₃.
                  bind-Ensures (SagaKeyed ks) (SagaKeyed ks) (confirm_stock env.order_id)
                    (λ _. after_confirm o) s₃ (confirm_stock-Keyed env.order_id s₃ k₃)
                    (λ _ s₄ k₄. k₄)

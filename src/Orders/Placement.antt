-- ===== src/Orders/Placement.antt =====
-- `placeOrder` of apps/workflow-service/src/orders/orders.service.ts: a saga over both services. Log
-- lines are left out.
use ecommerce_orderflow.Prelude.{
  ℕ, ◌+◌, ◌*◌, String, List, [], ◌∷◌, map, Option, none, some, ◌==◌, find,
}
use ecommerce_orderflow.Runtime.{Result, ok, err, pure, throw, ◌>>=◌, ◌>>◌}
use ecommerce_orderflow.Domain.Transitions.{Role, pending}
use ecommerce_orderflow.Inventory.Service.Record.{Line}
use ecommerce_orderflow.Orders.Errors.{
  Thrown, unknown_product, unauthenticated, idempotency_conflict, other_error,
}
use ecommerce_orderflow.Orders.Tables.{
  OrderRow, ProductRow, OrderItemRow, OrderEventRow, create, OrderResult,
}
use ecommerce_orderflow.Orders.Repository.{
  Tx, transaction, find_products, create_order, insert_item, insert_event, Claim, claimed, conflict,
  claim_in_progress, replay, claim_idempotency_key, complete_idempotency_key, fail_idempotency_key,
}
use ecommerce_orderflow.Orders.Transition.{Session}
use ecommerce_orderflow.Orders.Client.{
  System, Saga, on_orders, reserve_stock, confirm_stock, release_quietly,
}

pub record PlaceOrderInput : Type 0 where
  pub items : List Line
  pub idempotency_key : Option String

-- What a call takes from its surroundings: the digest of a payload, `randomUUID()`, and the time to
-- live and the clock of the inventory service.
pub record Env : Type 0 where
  pub fingerprint : List Line → String
  pub order_id : ℕ
  pub ttl : ℕ
  pub now : ℕ

-- A line with its price at the time of purchase.
pub record PricedLine : Type 0 where
  pub product_id : ℕ
  pub quantity : ℕ
  pub unit_price_cents : ℕ

-- `priceById.get(productId)!` is the price that the loop found for the same product.
abbrev pub priced : Line → ProductRow → PricedLine
priced l p = record {
  product_id = l.product_id;
  quantity = l.quantity;
  unit_price_cents = p.unit_price_cents;
}

abbrev pub price_found : Line → Option ProductRow → Tx PricedLine
price_found l none = throw (unknown_product l.product_id)
price_found l (some p) = pure (priced l p)

abbrev pub price_lines : List ProductRow → List Line → Tx (List PricedLine)
price_lines products [] = pure []
price_lines products (l ∷ ls) = price_found l (find (λ p. p.id == l.product_id) products) >>= λ x.
    price_lines products ls >>= λ xs. pure (x ∷ xs)

-- `totalCents`, summed in the order of the lines.
unfoldable pub total_cents : List PricedLine → ℕ
total_cents [] = 0
total_cents (l ∷ ls) = l.unit_price_cents * l.quantity + total_cents ls

unfoldable pub price_in : List Line → Tx (List PricedLine)
price_in items =
    find_products (map (λ l. l.product_id) items) >>= λ products. price_lines products items

unfoldable pub price_order : List Line → Tx (List PricedLine)
price_order items = transaction (price_in items)

abbrev pub item_of : ℕ → PricedLine → OrderItemRow
item_of order l = record {
  order_id = order;
  product_id = l.product_id;
  quantity = l.quantity;
  unit_price_cents = l.unit_price_cents;
}

unfoldable pub insert_items : ℕ → List PricedLine → Tx (Unit {0})
insert_items order [] = pure tt
insert_items order (l ∷ ls) = insert_item (item_of order l) >> insert_items order ls

abbrev pub created_event : ℕ → Role → OrderRow → OrderEventRow
created_event user role o = record {
  order_id = o.id;
  from_status = none;
  to_status = pending;
  action = create;
  actor_id = some user;
  actor_role = some role;
  reason = none;
}

abbrev pub result_of : OrderRow → OrderResult
result_of o = record { id = o.id; status = o.status; version = o.version }

-- The body of the local transaction.
unfoldable pub write_order : ℕ → ℕ → Role → List PricedLine → Tx OrderResult
write_order order user role lines = create_order user (total_cents lines) order >>= λ created.
    insert_items created.id lines
    >> (insert_event (created_event user role created) >> pure (result_of created))

-- `catch (err) { await releaseQuietly(orderId); throw err; }`
abbrev pub compensate : ℕ → Result Thrown OrderResult × System → Result Thrown OrderResult × System
compensate order (ok r, s) = (ok r, s)
compensate order (err e, s) = (release_quietly order >> throw e) s

unfoldable pub write_or_release : ℕ → ℕ → Role → List PricedLine → Saga OrderResult
write_or_release order user role lines s =
    compensate order (on_orders (transaction (write_order order user role lines)) s)

abbrev pub count_placed : Role → Tx (Unit {0})
count_placed r w =
    (ok tt, record w { metrics = record w.metrics { orders_placed = r ∷ w.metrics.orders_placed } })

unfoldable pub place_order_inner : Env → Session → ℕ → List Line → Saga OrderResult
place_order_inner env session user items = do
  lines ← on_orders (price_order items)
  reserve_stock env.ttl env.now env.order_id items
  order ← write_or_release env.order_id user session.role lines
  confirm_stock env.order_id
  on_orders (count_placed session.role)
  pure order

abbrev pub operation : String
operation = "placeOrder"

-- The `try` and `catch` around the inner call, with a key.
abbrev pub fail_key :
    ℕ → String → Result Thrown OrderResult × System → Result Thrown OrderResult × System
fail_key user key (ok r, s) = (ok r, s)
fail_key user key (err e, s) = (on_orders (fail_idempotency_key operation user key) >> throw e) s

abbrev pub complete_key : ℕ → String → OrderResult → Saga OrderResult
complete_key user key result =
    on_orders (transaction (complete_idempotency_key operation user key result)) >> pure result

unfoldable pub attempt_with_key : Env → Session → ℕ → List Line → String → Saga OrderResult
attempt_with_key env session user items key s =
    fail_key user key ((place_order_inner env session user items >>= complete_key user key) s)

-- A stored response is the JSON of an earlier result.
abbrev pub replayed : Option OrderResult → Saga OrderResult
replayed none = throw other_error
replayed (some r) = pure r

abbrev pub by_claim : Env → Session → ℕ → List Line → String → Claim → Saga OrderResult
by_claim env session user items key conflict = throw (idempotency_conflict key)
by_claim env session user items key (replay r) = replayed r
by_claim env session user items key claim_in_progress = throw (idempotency_conflict key)
by_claim env session user items key claimed = attempt_with_key env session user items key

-- `if (key)`: the schema of the input leaves no empty key.
abbrev pub place_keyed : Env → Session → ℕ → List Line → Option String → Saga OrderResult
place_keyed env session user items none = place_order_inner env session user items
place_keyed env session user items (some key) =
    on_orders (transaction (claim_idempotency_key operation user key (env.fingerprint items)))
    >>= by_claim env session user items key

abbrev pub place_as : Env → Session → Option ℕ → PlaceOrderInput → Saga OrderResult
place_as env session none input = throw unauthenticated
place_as env session (some user) input =
    place_keyed env session user input.items input.idempotency_key

unfoldable pub place_order : Env → Session → PlaceOrderInput → Saga OrderResult
place_order env session input = place_as env session session.user_id input

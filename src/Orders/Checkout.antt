-- ===== src/Orders/Checkout.antt =====
-- Runs of `placeOrder` over both services, and its theorems at concrete inputs.
use ecommerce_orderflow.Prelude.{◌≡◌, refl, List, [], ◌∷◌, some, ◌-ℤ◌, ◌+ℤ◌, ◌*ℤ◌, max_ℤ, length}
use ecommerce_orderflow.Runtime.{ok, healthy, with_transaction, next_fault, later_faults}
use ecommerce_orderflow.Domain.Transitions.{pending, customer}
use ecommerce_orderflow.Inventory.Tables.{StockItemRow}
use ecommerce_orderflow.Orders.Tables.{OrderResult}
use ecommerce_orderflow.Orders.Transition.{Session}
use ecommerce_orderflow.Orders.Replay.{place_order_retried}
use ecommerce_orderflow.Orders.Client.{Delivery, System, reply_lost, delivered}
use ecommerce_orderflow.Orders.Placement.{Env, PlaceOrderInput}
use ecommerce_orderflow.Orders.Repository.{
  fail_idempotency_key, insert_event, find_products, create_order, insert_item, earlier_claim,
  claim_idempotency_key, complete_idempotency_key, transaction as order_transaction,
}
use ecommerce_orderflow.Orders.Client.{send, reserve_stock, confirm_stock}
use ecommerce_orderflow.Orders.Placement.{
  total_cents, price_in, price_order, insert_items, write_order, write_or_release,
  place_order_inner, attempt_with_key, place_order,
}
use ecommerce_orderflow.Inventory.Repository.{
  lock_items, get_item, adjust_reserved, insert_reservation, find_held_by_order,
  confirm_reservation, insert_movement, insert_alert, resolve_alert, count_open_alerts,
  transaction as stock_transaction,
}
use ecommerce_orderflow.Inventory.Http.{to_http_exception}
use ecommerce_orderflow.Inventory.Rules.{
  available, can_reserve, alert_level_for, suggested_reorder_qty,
}
use ecommerce_orderflow.Inventory.Api.{valid_items, answer, post_reservation, post_confirm}
use ecommerce_orderflow.Inventory.Service.Record.{Line, record_and_evaluate}
use ecommerce_orderflow.Inventory.Service.Reserve.{
  add_wanted, sum_lines, lines_to_hold, hold_line, hold_lines, reserve_in, reserve, confirm_in,
  confirm,
}
use ecommerce_orderflow.Inventory.Repository.Rows.{
  fits_int4, is_quantity, shift_reserved, update_items,
}
use ecommerce_orderflow.Domain.Transitions.{OrderAction, ops}
use ecommerce_orderflow.Prelude.{none, String}
use ecommerce_orderflow.Orders.Audit.{IsAudited}
use ecommerce_orderflow.Orders.Histories.{Follows, run-Follows}
use ecommerce_orderflow.Orders.Tests.{order, office}
use ecommerce_orderflow.Orders.Serving.{Request, places, moves, run}
use ecommerce_orderflow.Orders.Audit.Runs.{run-IsAudited}

-- Customer 4, lamps at 900 cents, ten of them in stock.
abbrev lamps : StockItemRow
lamps = record {
  product_id = 7;
  sku = "LAMP";
  on_hand = 10;
  reserved = 0;
  reorder_level = 4;
  reorder_qty = 20;
}

abbrev pub empty_house : List Delivery → System
empty_house network = record {
  orders = record {
    db = record {
      users = 4 ∷ [];
      products = record { id = 7; sku = "LAMP"; unit_price_cents = 900 } ∷ [];
      orders = [];
      order_items = [];
      order_events = [];
      idempotency_keys = [];
      processed_events = [];
    };
    metrics = record { transitions = []; orders_placed = [] };
    faults = [];
  };
  inventory = record {
    db = record {
      stock_items = lamps ∷ [];
      reservations = [];
      stock_movements = [];
      stock_alerts = [];
      processed_events = [];
    };
    metrics = record { reservations = []; movements = [] };
    faults = [];
  };
  network = network;
}

abbrev pub shopper : Session
shopper = record { role = customer; user_id = some 4 }

abbrev pub basket : PlaceOrderInput
basket = record {
  items = record { product_id = 7; quantity = 2 } ∷ [];
  idempotency_key = some "key-0001";
}

-- The digest is a constant here: there is one payload.
abbrev pub first_try : Env
first_try = record { fingerprint = λ _. "print"; order_id = 1; ttl = 900; now = 0 }

abbrev pub second_try : Env
second_try = record first_try { order_id = 2; now = 5000 }

abbrev pub placed : OrderResult
placed = record { id = 1; status = pending; version = 1 }

-- Whatever the digest is.
pub checkout_accepted :
    (print : List Line → String)
    → (place_order (record first_try { fingerprint = print }) shopper basket (empty_house [])).0
      ≡ ok placed
unfolding with_transaction order_transaction insert_event find_products create_order insert_item
    earlier_claim claim_idempotency_key complete_idempotency_key send reserve_stock confirm_stock
    total_cents price_in price_order insert_items write_order write_or_release place_order_inner
    attempt_with_key place_order stock_transaction lock_items get_item adjust_reserved
    insert_reservation find_held_by_order confirm_reservation insert_movement insert_alert
    resolve_alert count_open_alerts to_http_exception available can_reserve alert_level_for
    suggested_reorder_qty valid_items answer post_reservation post_confirm record_and_evaluate
    add_wanted sum_lines lines_to_hold hold_line hold_lines reserve_in reserve confirm_in confirm
    fits_int4 is_quantity shift_reserved update_items ◌+ℤ◌ ◌-ℤ◌ ◌*ℤ◌ max_ℤ
checkout_accepted print = refl

pub basket_healthy :
    (print : List Line → String)
    → next_fault
        (place_order
          (record first_try { fingerprint = print })
          shopper
          basket
          (empty_house [])).1.orders.faults
      ≡ healthy
unfolding with_transaction order_transaction insert_event find_products create_order insert_item
    earlier_claim claim_idempotency_key complete_idempotency_key send reserve_stock confirm_stock
    total_cents price_in price_order insert_items write_order write_or_release place_order_inner
    attempt_with_key place_order stock_transaction lock_items get_item adjust_reserved
    insert_reservation find_held_by_order confirm_reservation insert_movement insert_alert
    resolve_alert count_open_alerts to_http_exception available can_reserve alert_level_for
    suggested_reorder_qty valid_items answer post_reservation post_confirm record_and_evaluate
    add_wanted sum_lines lines_to_hold hold_line hold_lines reserve_in reserve confirm_in confirm
    fits_int4 is_quantity shift_reserved update_items ◌+ℤ◌ ◌-ℤ◌ ◌*ℤ◌ max_ℤ
basket_healthy print = refl

-- The reply to the confirmation is lost: the caller gets an error although the order exists, and the
-- retry with the same key places a second order.
retried_twice :
    let s₁ = (place_order first_try shopper basket (empty_house (delivered ∷ reply_lost ∷ []))).1 in
    let (r, s₂) = place_order second_try shopper basket s₁ in
    (length s₁.orders.db.orders ≡ 1)
    × (r ≡ ok (record placed { id = 2 }))
    × (length s₂.orders.db.orders ≡ 2)
unfolding with_transaction order_transaction insert_event find_products create_order insert_item
    earlier_claim claim_idempotency_key complete_idempotency_key send reserve_stock confirm_stock
    total_cents price_in price_order insert_items write_order write_or_release place_order_inner
    attempt_with_key place_order stock_transaction lock_items get_item adjust_reserved
    insert_reservation find_held_by_order confirm_reservation insert_movement insert_alert
    resolve_alert count_open_alerts to_http_exception available can_reserve alert_level_for
    suggested_reorder_qty valid_items answer post_reservation post_confirm record_and_evaluate
    add_wanted sum_lines lines_to_hold hold_line hold_lines reserve_in reserve confirm_in confirm
    fits_int4 is_quantity shift_reserved update_items ◌+ℤ◌ ◌-ℤ◌ ◌*ℤ◌ max_ℤ fail_idempotency_key
retried_twice = (refl, refl, refl)

place_order_retried_example :
    place_order second_try shopper basket (place_order first_try shopper basket (empty_house [])).1
    ≡ (
      ok placed,
      record (place_order first_try shopper basket (empty_house [])).1 {
        orders = record (place_order first_try shopper basket (empty_house [])).1.orders {
          faults =
              later_faults (place_order first_try shopper basket (empty_house [])).1.orders.faults;
        };
      },
    )
place_order_retried_example =
    place_order_retried first_try second_try shopper basket 4 "key-0001" (empty_house []) placed
      refl refl refl (checkout_accepted (λ _. "print")) (basket_healthy (λ _. "print"))

abbrev morning : List Request
morning =
    places first_try shopper basket
    ∷ places second_try shopper basket
    ∷ moves (record { role = ops; user_id = none })
        (record {
          order_id = 1;
          action = OrderAction.confirm;
          expected_version = some 1;
          reason = none;
        })
    ∷ []

run-IsAudited_example :
    IsAudited (run morning (empty_house (delivered ∷ reply_lost ∷ []))).orders.db
run-IsAudited_example =
    run-IsAudited morning (empty_house (delivered ∷ reply_lost ∷ []))
      (record { keyed = tt; told = tt; owned = tt })

-- The same morning, in an office that has an order.
run-Follows_example :
    Follows 1 order (run morning (record (empty_house []) { orders = office })).orders.db
run-Follows_example = run-Follows morning (record (empty_house []) { orders = office }) 1 order refl

-- ===== src/Services/Tests.antt =====
-- An order from its placement to its shipment, through both services.
use Prim.Native.String.{[] as empty_string, ◌∷◌ as string_cons}
use ecommerce_orderflow.Prelude.{
  ℕ, zero, suc, String, ◌≡◌, refl, ap, List, [], ◌∷◌, ◌++◌, none, some, arith, ◌-ℤ◌, ◌+ℤ◌, ◌*ℤ◌,
  max_ℤ,
}
use ecommerce_orderflow.Runtime.{with_transaction}
use ecommerce_orderflow.Domain.Transitions.{
  OrderStatus, OrderAction, pending, confirmed, packed, shipped, customer, ops,
}
use ecommerce_orderflow.Orders.Tables.{OrderEventRow, create, act}
use ecommerce_orderflow.Orders.Client.{System}
use ecommerce_orderflow.Orders.Checkout.{empty_house, shopper, basket, first_try}
use ecommerce_orderflow.Orders.Serving.{Request, serve, run, places, moves}
use ecommerce_orderflow.Inventory.Serving.{sweeps, serve as serve_stock}
use ecommerce_orderflow.Inventory.Events.{order_event, handle_order_event, handle_in, apply_event}
use ecommerce_orderflow.Inventory.Tables.{committed}
use ecommerce_orderflow.Inventory.Sweeper.{sweep_in, sweep_order}
use ecommerce_orderflow.Inventory.Service.Settle.{commit_in, commit_holds, commit_hold}
use ecommerce_orderflow.Inventory.Repository.{
  is_still_expired, mark_event_processed, adjust_on_hand, set_reservation_status,
}
use ecommerce_orderflow.Inventory.Repository.Rows.{is_expired, shift_on_hand}
use ecommerce_orderflow.Orders.Repository.{
  insert_event, find_products, create_order, insert_item, earlier_claim, claim_idempotency_key,
  complete_idempotency_key, transaction as order_transaction,
}
use ecommerce_orderflow.Orders.Client.{send, reserve_stock, confirm_stock}
use ecommerce_orderflow.Orders.Placement.{
  total_cents, price_in, price_order, insert_items, write_order, write_or_release,
  place_order_inner, attempt_with_key, place_order,
}
use ecommerce_orderflow.Inventory.Repository.{
  lock_items, get_item, adjust_reserved, insert_reservation, find_held_by_order,
  confirm_reservation, insert_movement, insert_alert, resolve_alert, count_open_alerts,
  transaction as stock_transaction,
}
use ecommerce_orderflow.Inventory.Http.{to_http_exception}
use ecommerce_orderflow.Inventory.Rules.{
  available, can_reserve, alert_level_for, suggested_reorder_qty,
}
use ecommerce_orderflow.Inventory.Api.{valid_items, answer, post_reservation, post_confirm}
use ecommerce_orderflow.Inventory.Service.Record.{record_and_evaluate}
use ecommerce_orderflow.Inventory.Service.Reserve.{
  add_wanted, sum_lines, lines_to_hold, hold_line, hold_lines, reserve_in, reserve, confirm_in,
  confirm,
}
use ecommerce_orderflow.Inventory.Repository.Rows.{
  fits_int4, is_quantity, shift_reserved, update_items,
}
use ecommerce_orderflow.Orders.Repository.{get_order_for_update, update_status}
use ecommerce_orderflow.Orders.Transition.{transition_in, transition_order}
use ecommerce_orderflow.Domain.StateMachine.{apply_transition}
use ecommerce_orderflow.Services.{
  Uuids, event_body, called, asked, notified, Steps, none_yet, then_step,
}
use ecommerce_orderflow.Services.Runs.{Agrees, Steps-Agrees}

-- UUIDs as tallies.
abbrev tally : ℕ → String
tally zero = empty_string
tally (suc n) = string_cons "a" (tally n)

abbrev count : String → ℕ
count empty_string = 0
count (string_cons c t) = suc (count t)

abbrev tallies : Uuids
tallies = record { write = tally; parse = λ t. some (count t) }

count-tally : (n : ℕ) → count (tally n) ≡ n
count-tally zero = refl
count-tally (suc n) = ap suc (count-tally n)

abbrev clerk : OrderAction → Request
clerk a =
    moves (record { role = ops; user_id = none })
      (record { order_id = 1; action = a; expected_version = none; reason = none })

abbrev requests : List Request
requests =
    places first_try shopper basket
    ∷ clerk OrderAction.confirm
    ∷ clerk OrderAction.pack
    ∷ clerk OrderAction.ship
    ∷ []

abbrev shipped_house : System
shipped_house = run requests (empty_house [])

-- The event of a clerk's move.
abbrev move_event : OrderAction → OrderStatus → OrderStatus → OrderEventRow
move_event a from to = record {
  order_id = 1;
  from_status = some from;
  to_status = to;
  action = act a;
  actor_id = none;
  actor_role = some ops;
  reason = none;
}

abbrev earlier_events : List OrderEventRow
earlier_events =
    record {
      order_id = 1;
      from_status = none;
      to_status = pending;
      action = create;
      actor_id = some 4;
      actor_role = some customer;
      reason = none;
    }
    ∷ move_event OrderAction.confirm pending confirmed
    ∷ move_event OrderAction.pack confirmed packed
    ∷ []

-- The trail of the order, and what the delivery of its last event leaves of the reservation.
shipped_trail :
    shipped_house.orders.db.order_events
    ≡ earlier_events ++ move_event OrderAction.ship packed shipped ∷ []
unfolding run serve transition_order transition_in get_order_for_update update_status
    apply_transition with_transaction order_transaction insert_event find_products create_order
    insert_item earlier_claim claim_idempotency_key complete_idempotency_key send reserve_stock
    confirm_stock total_cents price_in price_order insert_items write_order write_or_release
    place_order_inner attempt_with_key place_order stock_transaction lock_items get_item
    adjust_reserved insert_reservation find_held_by_order confirm_reservation insert_movement
    insert_alert resolve_alert count_open_alerts to_http_exception available can_reserve
    alert_level_for suggested_reorder_qty valid_items answer post_reservation post_confirm
    record_and_evaluate add_wanted sum_lines lines_to_hold hold_line hold_lines reserve_in reserve
    confirm_in confirm fits_int4 is_quantity shift_reserved update_items ◌+ℤ◌ ◌-ℤ◌ ◌*ℤ◌ max_ℤ
shipped_trail = refl

abbrev shipment : OrderEventRow
shipment = move_event OrderAction.ship packed shipped

-- A late sweep comes before the event of the shipment, and the event comes twice.
abbrev swept : System
swept = record shipped_house { inventory = serve_stock (sweeps 9000000 1) shipped_house.inventory }

abbrev notify : System → System
notify s = record s {
  inventory = (order_event tallies.parse (event_body tallies "e4" shipment) s.inventory).1;
}

calls : (rs : List Request) (s s' : System) → Steps tallies s s' → Steps tallies s (run rs s')
unfolding run
calls [] s s' h = h
calls (r ∷ rs) s s' h = calls rs s (serve r s') (then_step h (called r s'))

day : Steps tallies (empty_house []) (notify (notify swept))
day =
    then_step
      (then_step
        (then_step (calls requests (empty_house []) (empty_house []) (none_yet (empty_house [])))
          (asked (sweeps 9000000 1) shipped_house refl))
        (notified "e4" shipment earlier_events [] swept shipped_trail))
      (notified "e4" shipment earlier_events [] (notify swept) shipped_trail)

committed_once :
    (notify (notify swept)).inventory.db.reservations
    ≡ record { order_id = 1; product_id = 7; quantity = 2; status = committed; expires_at = none }
      ∷ []
unfolding run serve transition_order transition_in get_order_for_update update_status
    apply_transition with_transaction order_transaction insert_event find_products create_order
    insert_item earlier_claim claim_idempotency_key complete_idempotency_key send reserve_stock
    confirm_stock total_cents price_in price_order insert_items write_order write_or_release
    place_order_inner attempt_with_key place_order stock_transaction lock_items get_item
    adjust_reserved insert_reservation find_held_by_order confirm_reservation insert_movement
    insert_alert resolve_alert count_open_alerts to_http_exception available can_reserve
    alert_level_for suggested_reorder_qty valid_items answer post_reservation post_confirm
    record_and_evaluate add_wanted sum_lines lines_to_hold hold_line hold_lines reserve_in reserve
    confirm_in confirm fits_int4 is_quantity shift_reserved update_items ◌+ℤ◌ ◌-ℤ◌ ◌*ℤ◌ max_ℤ
    serve_stock sweep_order sweep_in is_still_expired order_event handle_order_event handle_in
    mark_event_processed apply_event commit_in commit_holds commit_hold adjust_on_hand
    set_reservation_status is_expired shift_on_hand
committed_once = refl

empty_house-Agrees : Agrees (empty_house [])
empty_house-Agrees = record {
  audited = record { keyed = tt; told = tt; owned = tt };
  sound = (ground arith, tt);
}

Steps-Agrees_example : Agrees (notify (notify swept))
Steps-Agrees_example = Steps-Agrees tallies (λ n. ap some (count-tally n)) day empty_house-Agrees

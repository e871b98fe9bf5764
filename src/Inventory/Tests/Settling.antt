-- ===== src/Inventory/Tests/Settling.antt =====
-- Settling an order once, and what the driver refuses, at concrete inputs.
use ecommerce_orderflow.Prelude.{◌≡◌, List, [], ◌∷◌, map, some, ◌+ℤ◌}
use ecommerce_orderflow.Runtime.{ok, healthy}
use ecommerce_orderflow.Inventory.Rules.{alert_level_for, suggested_reorder_qty}
use ecommerce_orderflow.Inventory.Tables.{
  Inventory, StockItemRow, ReservationRow, ReservationStatus, released,
}
use ecommerce_orderflow.Inventory.Service.Settle.{release_in, commit_in}
use ecommerce_orderflow.Prelude.{true, false, refl, ◌-ℤ◌, max_ℤ, ◌*ℤ◌}
use ecommerce_orderflow.Runtime.{next_fault, later_faults, with_transaction}
use ecommerce_orderflow.Inventory.Repository.{
  transaction, find_held_by_order, adjust_reserved, get_item, insert_movement, insert_alert,
  resolve_alert, set_reservation_status, mark_event_processed, confirm_reservation,
  is_still_expired, lock_items, insert_reservation,
}
use ecommerce_orderflow.Inventory.Repository.Rows.{
  update_items, shift_reserved, fits_int4, is_expired, is_quantity,
}
use ecommerce_orderflow.Inventory.Rules.{available, can_reserve}
use ecommerce_orderflow.Inventory.Service.Record.{record_and_evaluate}
use ecommerce_orderflow.Inventory.Service.Reserve.{
  confirm_in, confirm, reserve_in, lines_to_hold, hold_line, hold_lines, add_wanted, sum_lines,
}
use ecommerce_orderflow.Inventory.Service.Record.{ReserveInput}
use ecommerce_orderflow.Inventory.Serving.{Request, reserves, confirms, delivers, sweeps, run}
use ecommerce_orderflow.Inventory.Stock.Confirmed.{confirmed_not_swept}
use ecommerce_orderflow.Inventory.Service.Settle.{release_hold, release_holds}
use ecommerce_orderflow.Inventory.Events.{
  OrderEventPayload, Status, apply_event, handle_in, handle_order_event,
}
use ecommerce_orderflow.Inventory.Sweeper.{sweep_in, sweep_order}
use ecommerce_orderflow.Inventory.Stock.Once.{settled_once, handle_order_event_once}
use ecommerce_orderflow.Inventory.Tests.Shop.{shop, shop-IsConsistent, lamp, four_lamps}

settled_once_example :
    (release_in 1 "again" (release_in 1 "cancelled" shop).1
      ≡ (ok 0, (release_in 1 "cancelled" shop).1))
    × (commit_in 1 (release_in 1 "cancelled" shop).1 ≡ (ok 0, (release_in 1 "cancelled" shop).1))
    × (release_in 1 "again" (commit_in 1 shop).1 ≡ (ok 0, (commit_in 1 shop).1))
    × (commit_in 1 (commit_in 1 shop).1 ≡ (ok 0, (commit_in 1 shop).1))
settled_once_example = settled_once 1 "cancelled" "again" shop shop-IsConsistent

-- After the confirmation of order 1: a reservation of another order, a repeated confirmation, a delivery and a
-- sweep of the other order.
abbrev later : List Request
later =
    reserves 300 1000 (record { order_id = 5; items = four_lamps ∷ [] })
    ∷ confirms 1
    ∷ delivers "e1" (record { order_id = some 5; to_status = "CANCELLED" })
    ∷ sweeps 9000 5
    ∷ []

confirmed_one : (confirm 1 shop).0 ≡ ok 1
unfolding confirm confirm_in confirm_reservation transaction with_transaction
confirmed_one = refl

confirmed_not_swept_example :
    (sweep_in 5000000 1 (run later (confirm 1 shop).1) ≡ (ok false, run later (confirm 1 shop).1))
    × ((sweep_order 5000000 1 (run later (confirm 1 shop).1)).1.db
        ≡ (run later (confirm 1 shop).1).db)
confirmed_not_swept_example =
    confirmed_not_swept 1 5000000 1 later shop shop-IsConsistent confirmed_one
      (refl, (tt, ((λ _ _ _. tt), (tt, tt))))

-- A check of `isStillExpired` that another transaction's confirmation follows, before the release that the
-- check allowed: the check takes no lock.
still_expired : (is_still_expired 5000 1 shop).0 ≡ ok true
unfolding is_still_expired is_expired
still_expired = refl

abbrev statuses : Inventory → List ReservationStatus
statuses w = map (λ (v : ReservationRow). v.status) w.db.reservations

-- The confirmed hold is given back.
released_after_confirm :
    statuses
      (release_in 1 "reservation expired before the order was confirmed" (confirm_in 1 shop).1).1
    ≡ released ∷ released ∷ []
unfolding confirm_in confirm_reservation release_in find_held_by_order release_hold release_holds
    adjust_reserved get_item record_and_evaluate set_reservation_status insert_movement insert_alert
    resolve_alert update_items shift_reserved fits_int4 available alert_level_for
    suggested_reorder_qty ◌+ℤ◌ ◌-ℤ◌ ◌*ℤ◌ max_ℤ
released_after_confirm = refl

abbrev desk : StockItemRow
desk = record lamp { product_id = 8; sku = "DESK"; reserved = 0 }

abbrev two_products : Inventory
two_products = record shop { db = record shop.db { stock_items = lamp ∷ desk ∷ [] } }

abbrev one_desk : ReserveInput
one_desk = record { order_id = 1; items = record { product_id = 8; quantity = 1 } ∷ [] }

-- A reservation of one more product after the order was confirmed: the late sweep gives back the confirmed
-- hold with the new one.
confirmed_reserved_swept :
    statuses (sweep_in 900000 1 (reserve_in 300 1000 one_desk (confirm_in 1 two_products).1).1).1
    ≡ released ∷ released ∷ released ∷ []
unfolding confirm_in confirm_reservation release_in find_held_by_order release_hold release_holds
    adjust_reserved get_item record_and_evaluate set_reservation_status insert_movement insert_alert
    resolve_alert update_items shift_reserved fits_int4 available alert_level_for
    suggested_reorder_qty ◌+ℤ◌ ◌-ℤ◌ ◌*ℤ◌ max_ℤ reserve_in lines_to_hold hold_line hold_lines
    add_wanted sum_lines lock_items insert_reservation is_quantity can_reserve sweep_in
    is_still_expired is_expired
confirmed_reserved_swept = refl

abbrev cancelled_event : OrderEventPayload
cancelled_event = record { order_id = some 1; to_status = "CANCELLED" }

event_released : (handle_order_event "e1" cancelled_event shop).0 ≡ ok Status.released
unfolding handle_order_event handle_in apply_event transaction with_transaction mark_event_processed
    release_in find_held_by_order release_hold release_holds adjust_reserved get_item
    record_and_evaluate set_reservation_status insert_movement insert_alert resolve_alert
    update_items shift_reserved fits_int4 available alert_level_for suggested_reorder_qty ◌+ℤ◌ ◌-ℤ◌
    ◌*ℤ◌ max_ℤ
event_released = refl

event_healthy : next_fault (handle_order_event "e1" cancelled_event shop).1.faults ≡ healthy
unfolding handle_order_event handle_in apply_event transaction with_transaction mark_event_processed
    release_in find_held_by_order release_hold release_holds adjust_reserved get_item
    record_and_evaluate set_reservation_status insert_movement insert_alert resolve_alert
    update_items shift_reserved fits_int4 available alert_level_for suggested_reorder_qty ◌+ℤ◌ ◌-ℤ◌
    ◌*ℤ◌ max_ℤ
event_healthy = refl

handle_order_event_once_example :
    handle_order_event "e1" cancelled_event (handle_order_event "e1" cancelled_event shop).1 ≡ (
      ok Status.skipped,
      record (handle_order_event "e1" cancelled_event shop).1 {
        faults = later_faults (handle_order_event "e1" cancelled_event shop).1.faults;
      },
    )
handle_order_event_once_example =
    handle_order_event_once "e1" cancelled_event cancelled_event shop Status.released
      shop-IsConsistent event_released event_healthy

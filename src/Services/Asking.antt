-- ===== src/Services/Asking.antt =====
-- What `placeOrder` of apps/workflow-service/src/orders/orders.service.ts keeps of the inventory
-- service's database.
use ecommerce_orderflow.Prelude.{some, ℕ, List, Bool, true, false, arith}
use ecommerce_orderflow.Inventory.Tables.{ReservationRow, Inventory}
use ecommerce_orderflow.Inventory.Repository.{Tx}
use ecommerce_orderflow.Inventory.Service.Record.{Line, ReserveInput}
use ecommerce_orderflow.Inventory.Service.Reserve.{reserve}
use ecommerce_orderflow.Inventory.Api.{
  Reply, answer, when_valid, valid_items, post_reservation, post_confirm, post_release,
}
use ecommerce_orderflow.Inventory.Serving.{serve, reserves, confirms, releases}
use ecommerce_orderflow.Orders.Client.{
  Delivery, delivered, request_lost, reply_lost, System, deliver_request, send, check_reserved,
  check_ok, reserve_stock, confirm_stock, release_quietly,
}
use ecommerce_orderflow.Orders.Serving.Calls.{Keeps, bind-Keeps, StepsKeep}
use ecommerce_orderflow.Inventory.Stock.Rows.{IsRowKept}
use ecommerce_orderflow.Inventory.Stock.Rows.Requests.{IsSound, serve-Sound}

module _ (P : ReservationRow → Type 0) (may_commit : ℕ → Type 0)
    (kept : IsRowKept P (λ _. Unit {0}) may_commit) where
  abbrev Stocked : System → Type 0
  Stocked s = IsSound P s.inventory.db

  -- A route that keeps the database sound.
  abbrev Serves : (Inventory → Reply × Inventory) → Type 0
  Serves route = (w : Inventory) → IsSound P w.db → IsSound P (route w).1.db

  when_valid-Sound :
      {A : Type 0} (b : Bool) (call : Tx A)
      → ((w : Inventory) → IsSound P w.db → IsSound P (call w).1.db)
      → Serves (answer (when_valid b call))
  unfolding answer
  when_valid-Sound false call k w h = h
  when_valid-Sound true call k w h = k w h

  post_reservation-Serves : (ttl now : ℕ) (i : ReserveInput) → Serves (post_reservation ttl now i)
  unfolding post_reservation serve
  post_reservation-Serves ttl now i =
      when_valid-Sound (valid_items i.items) (reserve ttl now i)
        (λ w. serve-Sound P (λ _. Unit {0}) may_commit kept (reserves ttl now i) w tt)

  post_confirm-Serves : (o : ℕ) → Serves (post_confirm (some o))
  unfolding post_confirm answer serve
  post_confirm-Serves o w h = serve-Sound P (λ _. Unit {0}) may_commit kept (confirms o) w tt h

  post_release-Serves : (o : ℕ) → Serves (post_release (some o))
  unfolding post_release answer serve
  post_release-Serves o w h =
      serve-Sound P (λ _. Unit {0}) may_commit kept (releases o "released by order service") w tt h

  deliver_request-Keeps :
      (d : Delivery) (route : Inventory → Reply × Inventory)
      → Serves route
      → Keeps Stocked (deliver_request d route)
  deliver_request-Keeps delivered route k s h = k s.inventory h
  deliver_request-Keeps request_lost route k s h = h
  deliver_request-Keeps reply_lost route k s h = k s.inventory h

  send-Keeps : (route : Inventory → Reply × Inventory) → Serves route → Keeps Stocked (send route)
  unfolding send
  send-Keeps route k s h = deliver_request-Keeps _ route k _ h

  check_reserved-Keeps : (r : Reply) → Keeps Stocked (check_reserved r)
  check_reserved-Keeps r s h = ground (arith, h)

  check_ok-Keeps : (r : Reply) → Keeps Stocked (check_ok r)
  check_ok-Keeps r s h = ground (arith, h)

  reserve_stock-Keeps :
      (ttl now o : ℕ) (ls : List Line) → Keeps Stocked (reserve_stock ttl now o ls)
  unfolding reserve_stock
  reserve_stock-Keeps ttl now o ls =
      let input : ReserveInput = record { order_id = o; items = ls } in
      bind-Keeps Stocked (send (post_reservation ttl now input)) check_reserved
        (send-Keeps (post_reservation ttl now input) (post_reservation-Serves ttl now input))
        check_reserved-Keeps

  confirm_stock-Keeps : (o : ℕ) → Keeps Stocked (confirm_stock o)
  unfolding confirm_stock
  confirm_stock-Keeps o =
      bind-Keeps Stocked (send (post_confirm (some o))) check_ok
        (send-Keeps (post_confirm (some o)) (post_confirm-Serves o)) check_ok-Keeps

  release_quietly-Keeps : (o : ℕ) → Keeps Stocked (release_quietly o)
  unfolding release_quietly
  release_quietly-Keeps o s h = send-Keeps (post_release (some o)) (post_release-Serves o) s h

  pub asks_keep : StepsKeep Stocked
  asks_keep = record {
    price_keeps = λ ls s h. h;
    reserve_keeps = reserve_stock-Keeps;
    write_keeps = λ o user role ls s h. h;
    release_keeps = release_quietly-Keeps;
    confirm_keeps = confirm_stock-Keeps;
    count_keeps = λ role s h. h;
    claim_keeps = λ user key print s h. h;
    complete_keeps = λ user key r s h. h;
    fail_keeps = λ user key s h. h;
  }

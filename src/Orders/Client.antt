-- ===== src/Orders/Client.antt =====
-- apps/workflow-service/src/inventory/inventory.client.ts: calls of the inventory service over a
-- network that may lose a request or a reply.
use ecommerce_orderflow.Prelude.{
  ℕ, List, [], ◌∷◌, Bool, ◌&&◌, Option, none, some, pos, ◌==◌, leb, ltb, if◌then◌else◌,
}
use ecommerce_orderflow.Runtime.{Result, ok, err, Call, pure, throw, ◌>>=◌}
use ecommerce_orderflow.Domain.StateMachine.{DomainError}
use ecommerce_orderflow.Inventory.Tables.{Inventory}
use ecommerce_orderflow.Inventory.Service.Record.{Line}
use ecommerce_orderflow.Inventory.Http.{Extensions}
use ecommerce_orderflow.Inventory.Api.{Reply, post_reservation, post_confirm, post_release}
use ecommerce_orderflow.Orders.Errors.{Thrown, domain, other_error}
use ecommerce_orderflow.Orders.Tables.{Orders}
use ecommerce_orderflow.Orders.Repository.{Tx}

-- What happens to a request on the network.
pub data Delivery : Type 0 where
  delivered request_lost reply_lost : Delivery

-- Both services, and the network between them: a script that has run out delivers.
pub record System : Type 0 where
  pub orders : Orders
  pub inventory : Inventory
  pub network : List Delivery

abbrev pub Saga : Type 0 → Type 0
Saga A = Call System Thrown A

abbrev pub on_orders : {A : Type 0} → Tx A → Saga A
on_orders call s = let (r, w) = call s.orders in (r, record s { orders = w })

abbrev pub next_delivery : List Delivery → Delivery
next_delivery [] = delivered
next_delivery (d ∷ ds) = d

abbrev pub later_deliveries : List Delivery → List Delivery
later_deliveries [] = []
later_deliveries (d ∷ ds) = ds

abbrev pub deliver_request : Delivery → (Inventory → Reply × Inventory) → Saga Reply
deliver_request delivered route s =
    let (reply, w) = route s.inventory in (ok reply, record s { inventory = w })
deliver_request request_lost route s = (err other_error, s)
deliver_request reply_lost route s =
    let (reply, w) = route s.inventory in (err other_error, record s { inventory = w })

-- `post`: `fetch` rejects when the request or the reply is lost.
unfoldable pub send : (Inventory → Reply × Inventory) → Saga Reply
send route s =
    deliver_request (next_delivery s.network) route
      (record s { network = later_deliveries s.network })

-- `e.productId ?? "unknown"`, `e.requested ?? 0`, `e.available ?? 0`
abbrev pub stock_error : Option Extensions → DomainError
stock_error (some (Extensions.insufficient_stock p requested available)) =
    DomainError.insufficient_stock (some p) requested available
stock_error (some (Extensions.reservation_conflict o p existing requested)) =
    DomainError.insufficient_stock (some p) requested (pos 0)
stock_error _ = DomainError.insufficient_stock none 0 (pos 0)

-- `res.ok`
abbrev pub is_success : ℕ → Bool
is_success status = leb 200 status && ltb status 300

abbrev pub check_reserved : Reply → Saga (Unit {0})
check_reserved reply =
    if reply.status == 409
    then throw (domain (stock_error reply.extensions))
    else if is_success reply.status
    then pure tt
    else throw other_error

unfoldable pub reserve_stock : ℕ → ℕ → ℕ → List Line → Saga (Unit {0})
reserve_stock ttl now order items =
    send (post_reservation ttl now (record { order_id = order; items = items })) >>= check_reserved

abbrev pub check_ok : Reply → Saga (Unit {0})
check_ok reply = if is_success reply.status then pure tt else throw other_error

unfoldable pub confirm_stock : ℕ → Saga (Unit {0})
confirm_stock order = send (post_confirm (some order)) >>= check_ok

-- The error is logged and dropped, and so is the status of a reply.
abbrev pub quietly : Result Thrown Reply × System → Result Thrown (Unit {0}) × System
quietly (r, s) = (ok tt, s)

unfoldable pub release_quietly : ℕ → Saga (Unit {0})
release_quietly order s = quietly (send (post_release (some order)) s)

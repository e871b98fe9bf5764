-- ===== src/Inventory/Service/Settle.antt =====
-- apps/inventory-service/src/inventory/inventory.service.ts: `release`, `commit` and `receive`.
use ecommerce_orderflow.Prelude.{ℕ, String, List, [], ◌∷◌, Option, none, some, pos, neg_ℕ, length}
use ecommerce_orderflow.Runtime.{pure, throw, ◌>>=◌, ◌>>◌}
use ecommerce_orderflow.Inventory.Errors.{business, unknown_stock_item}
use ecommerce_orderflow.Inventory.Tables.{
  StockItemRow, ReservationRow, released, committed, MovementKind, outcome_released,
  outcome_committed,
}
use ecommerce_orderflow.Inventory.Repository.{
  Tx, transaction, lock_items, get_item, adjust_reserved, adjust_on_hand, find_held_by_order,
  set_reservation_status,
}
use ecommerce_orderflow.Inventory.Service.Record.{
  Change, ReceiveInput, ReceiveResult, count_outcome, record_and_evaluate, record_after, change_of,
}

unfoldable pub release_hold : ℕ → String → ReservationRow → Tx (Unit {0})
release_hold order reason r =
    adjust_reserved r.product_id (neg_ℕ r.quantity)
    >> (get_item r.product_id >>= λ after.
        record_after after (change_of MovementKind.release order r.quantity (some reason)))

unfoldable pub release_holds : ℕ → String → List ReservationRow → Tx (Unit {0})
release_holds order reason [] = pure tt
release_holds order reason (r ∷ rs) = release_hold order reason r >> release_holds order reason rs

abbrev pub mark_released : ℕ → List ReservationRow → Tx (Unit {0})
mark_released order [] = pure tt
mark_released order (r ∷ rs) =
    set_reservation_status order released >> count_outcome outcome_released

unfoldable pub release_in : ℕ → String → Tx ℕ
release_in order reason = do
  found ← find_held_by_order order
  release_holds order reason found
  mark_released order found
  pure (length found)

unfoldable pub release : ℕ → String → Tx ℕ
release order reason = transaction (release_in order reason)

unfoldable pub commit_hold : ℕ → ReservationRow → Tx (Unit {0})
commit_hold order r =
    adjust_reserved r.product_id (neg_ℕ r.quantity)
    >> (adjust_on_hand r.product_id (neg_ℕ r.quantity)
        >> (get_item r.product_id >>= λ after.
            record_after after (change_of MovementKind.commit order r.quantity none)))

unfoldable pub commit_holds : ℕ → List ReservationRow → Tx (Unit {0})
commit_holds order [] = pure tt
commit_holds order (r ∷ rs) = commit_hold order r >> commit_holds order rs

abbrev pub mark_committed : ℕ → List ReservationRow → Tx (Unit {0})
mark_committed order [] = pure tt
mark_committed order (r ∷ rs) =
    set_reservation_status order committed >> count_outcome outcome_committed

unfoldable pub commit_in : ℕ → Tx ℕ
commit_in order = do
  found ← find_held_by_order order
  commit_holds order found
  mark_committed order found
  pure (length found)

unfoldable pub commit : ℕ → Tx ℕ
commit order = transaction (commit_in order)

-- `const [row] = …; if (!row) throw …`
abbrev pub first_or_unknown : ℕ → List StockItemRow → Tx StockItemRow
first_or_unknown p [] = throw (business (unknown_stock_item p))
first_or_unknown p (row ∷ rows) = pure row

-- `a ?? b`
abbrev pub or_else {ℓ} : {A : Type ℓ} → Option A → A → A
or_else none b = b
or_else (some a) b = a

-- `change` of a receipt.
abbrev pub receipt : ReceiveInput → Change
receipt input = record {
  kind = MovementKind.receive;
  order_id = none;
  quantity = input.quantity;
  on_hand_delta = pos 0;
  reserved_delta = pos 0;
  reason = some (or_else input.reason "stock received");
}

-- `(await getItem(…)) ?? row`, and the rest of `receive`.
abbrev pub audit_receipt : ReceiveInput → StockItemRow → Tx ReceiveResult
audit_receipt input row = do
  found ← get_item input.product_id
  after ← record_and_evaluate (or_else found row) (receipt input)
  pure (record { product_id = input.product_id; on_hand = after.on_hand })

abbrev pub restock : ReceiveInput → StockItemRow → Tx ReceiveResult
restock input row = adjust_on_hand input.product_id (pos input.quantity) >> audit_receipt input row

unfoldable pub receive_in : ReceiveInput → Tx ReceiveResult
receive_in input = lock_items (input.product_id ∷ []) >>= λ rows.
    first_or_unknown input.product_id rows >>= restock input

unfoldable pub receive : ReceiveInput → Tx ReceiveResult
receive input = transaction (receive_in input)

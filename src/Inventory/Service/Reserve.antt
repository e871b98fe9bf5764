-- ===== src/Inventory/Service/Reserve.antt =====
-- apps/inventory-service/src/inventory/inventory.service.ts: `reserve` and `confirm`. `now` is
-- `Date.now()` and `ttl` is `RESERVATION_TTL_SECONDS`.
use ecommerce_orderflow.Prelude.{
  ℕ, ◌+◌, ◌*◌, List, [], ◌∷◌, map, Bool, true, false, Option, none, some, pos, ◌==◌, ltb,
  if◌then◌else◌, find,
}
use ecommerce_orderflow.Runtime.{pure, throw, ◌>>=◌, ◌>>◌}
use ecommerce_orderflow.Inventory.Rules.{available, can_reserve}
use ecommerce_orderflow.Inventory.Errors.{
  business, insufficient_stock, unknown_stock_item, reservation_conflict,
}
use ecommerce_orderflow.Inventory.Tables.{
  StockItemRow, ReservationRow, MovementKind, ReservationOutcome, outcome_held, outcome_confirmed,
  outcome_insufficient_stock,
}
use ecommerce_orderflow.Inventory.Repository.{
  Tx, transaction, lock_items, get_item, adjust_reserved, insert_reservation, find_held_by_order,
  confirm_reservation,
}
use ecommerce_orderflow.Inventory.Service.Record.{
  counts_of, Line, ReserveInput, ReserveResult, count_outcome, record_after, change_of,
}

-- `wanted.set(id, (wanted.get(id) ?? 0) + quantity)`: a map keeps its keys in insertion order.
unfoldable pub add_wanted : Line → List Line → List Line
add_wanted l [] = l ∷ []
add_wanted l (m ∷ ms) =
    let rest = add_wanted l ms in
    if m.product_id == l.product_id
    then record m { quantity = m.quantity + l.quantity } ∷ ms
    else m ∷ rest

unfoldable pub sum_lines : List Line → List Line → List Line
sum_lines wanted [] = wanted
sum_lines wanted (l ∷ ls) = sum_lines (add_wanted l wanted) ls

-- `existing.get(productId)`
abbrev pub held_quantity : ℕ → List ReservationRow → Option ℕ
held_quantity p [] = none
held_quantity p (v ∷ vs) = if v.product_id == p then some v.quantity else held_quantity p vs

-- One round of the loop that fills `toHold`; the result says whether the line is to be held.
abbrev pub check_hold : ℕ → Line → Option ℕ → StockItemRow → Tx Bool
check_hold order l (some had) row =
    if had == l.quantity
    then pure false
    else throw (business (reservation_conflict order l.product_id had l.quantity))
check_hold order l none row =
    if can_reserve (counts_of row) (pos l.quantity)
    then pure true
    else count_outcome outcome_insufficient_stock
      >> throw (business (insufficient_stock l.product_id l.quantity (available (counts_of row))))

abbrev pub check_line : ℕ → Line → Option ℕ → Option StockItemRow → Tx Bool
check_line order l had none = throw (business (unknown_stock_item l.product_id))
check_line order l had (some row) = check_hold order l had row

unfoldable pub lines_to_hold :
    ℕ → List StockItemRow → List ReservationRow → List Line → Tx (List Line)
unfolding can_reserve available
lines_to_hold order rows existing [] = pure []
lines_to_hold order rows existing (l ∷ ls) =
    check_line order l (held_quantity l.product_id existing)
      (find (λ r. r.product_id == l.product_id) rows)
    >>= λ hold.
        lines_to_hold order rows existing ls >>= λ rest. pure (if hold then l ∷ rest else rest)

-- `if (!inserted) continue;` and what follows it.
abbrev pub hold_inserted : ℕ → Line → Bool → Tx (Unit {0})
hold_inserted order l false = pure tt
hold_inserted order l true =
    adjust_reserved l.product_id (pos l.quantity)
    >> (get_item l.product_id >>= λ after.
        record_after after (change_of MovementKind.reserve order l.quantity none))

unfoldable pub hold_line : ℕ → ℕ → Line → Tx (Unit {0})
hold_line order expires_at l =
    insert_reservation order l.product_id l.quantity expires_at >>= hold_inserted order l

unfoldable pub hold_lines : ℕ → ℕ → List Line → Tx (Unit {0})
hold_lines order expires_at [] = pure tt
hold_lines order expires_at (l ∷ ls) =
    hold_line order expires_at l >> hold_lines order expires_at ls

abbrev pub count_held : List Line → Tx (Unit {0})
count_held [] = pure tt
count_held (l ∷ ls) = count_outcome outcome_held

-- What follows the check of the lines.
abbrev pub hold_all : ℕ → ℕ → List Line → List Line → Tx ReserveResult
hold_all order expires_at wanted to_hold =
    hold_lines order expires_at to_hold
    >> (count_held to_hold >> pure (record { order_id = order; reserved = wanted }))

unfoldable pub reserve_in : ℕ → ℕ → ReserveInput → Tx ReserveResult
reserve_in ttl now input = do
  let wanted = sum_lines [] input.items
  rows ← lock_items (map (λ l. l.product_id) wanted)
  existing ← find_held_by_order input.order_id
  to_hold ← lines_to_hold input.order_id rows existing wanted
  hold_all input.order_id (now + ttl * 1000) wanted to_hold

unfoldable pub reserve : ℕ → ℕ → ReserveInput → Tx ReserveResult
reserve ttl now input = transaction (reserve_in ttl now input)

abbrev pub count_if : ReservationOutcome → ℕ → Tx (Unit {0})
count_if o n w = (if ltb 0 n then count_outcome o else pure tt) w

unfoldable pub confirm_in : ℕ → Tx ℕ
confirm_in order = do
  confirmed ← confirm_reservation order
  count_if outcome_confirmed confirmed
  pure confirmed

unfoldable pub confirm : ℕ → Tx ℕ
confirm order = transaction (confirm_in order)

-- ===== src/Inventory/Stock/ReserveCall.antt =====
-- `reserve` of apps/inventory-service/src/inventory/inventory.service.ts keeps the stock consistent.
use ecommerce_orderflow.Prelude.{
  filter, sort_by, ℕ, ◌+◌, ◌*◌, ◌≡◌, refl, ◌∙◌, List, [], ◌∷◌, map, Option, none, some, true, false,
  pos, any, find, ◌==◌, if◌then◌else◌,
}
use ecommerce_orderflow.Runtime.{◌>>=◌, ◌>>◌, pure, throw}
use ecommerce_orderflow.Runtime.Laws.{Ensures, bind-Ensures}
use ecommerce_orderflow.Inventory.Rules.{can_reserve, available}
use ecommerce_orderflow.Inventory.Errors.{business, insufficient_stock, reservation_conflict}
use ecommerce_orderflow.Inventory.Tables.{
  StockItemRow, ReservationRow, Inventory, outcome_insufficient_stock,
}
use ecommerce_orderflow.Inventory.Repository.{lock_items, find_held_by_order}
use ecommerce_orderflow.Inventory.Service.Record.{counts_of, count_outcome, Line, ReserveInput}
use ecommerce_orderflow.Inventory.Service.Reserve.{
  sum_lines, held_quantity, check_line, lines_to_hold, hold_lines, count_held, hold_all, reserve_in,
}
use ecommerce_orderflow.Inventory.Stock.Consistency.{IsConsistent}
use ecommerce_orderflow.Inventory.Stock.Holding.{same-IsConsistent}
use ecommerce_orderflow.Inventory.Stock.Reserve.{Consistent, hold_lines-keeps}
use ecommerce_orderflow.Inventory.Stock.Settled.{found_for}

-- A call that returns with the stock and the reservations as they were.
abbrev pub SameStock : {A : Type 0} → Inventory → A → Inventory → Type 0
SameStock w a w' = (w'.db.stock_items ≡ w.db.stock_items) × (w'.db.reservations ≡ w.db.reservations)

check_line-SameStock :
    (o : ℕ) (l : Line) (had : Option ℕ) (found : Option StockItemRow) (w : Inventory)
    → Ensures (SameStock w) (check_line o l had found w)
check_line-SameStock o l had none w = tt
check_line-SameStock o l none (some row) w =
    elim (can_reserve (counts_of row) (pos l.quantity))
      as (λ b. Ensures (SameStock w) (
        (if b
            then pure true
            else count_outcome outcome_insufficient_stock
              >> throw (
                  business
                    (insufficient_stock l.product_id l.quantity (available (counts_of row)))))
          w)) [ true ↦ (refl, refl) | false ↦ tt ]
check_line-SameStock o l (some had) (some row) w =
    elim (had == l.quantity)
      as (λ b. Ensures (SameStock w) (
        (if b
            then pure false
            else throw (business (reservation_conflict o l.product_id had l.quantity)))
          w)) [ true ↦ (refl, refl) | false ↦ tt ]

pub lines_to_hold-SameStock :
    (o : ℕ) (rows : List StockItemRow) (existing : List ReservationRow) (ls : List Line)
    (w : Inventory)
    → Ensures (SameStock w) (lines_to_hold o rows existing ls w)
unfolding lines_to_hold
lines_to_hold-SameStock o rows existing [] w = (refl, refl)
lines_to_hold-SameStock o rows existing (l ∷ ls) w =
    bind-Ensures (SameStock w) (SameStock w)
      (check_line o l (held_quantity l.product_id existing)
        (find (λ r. r.product_id == l.product_id) rows))
      (λ hold. lines_to_hold o rows existing ls >>= λ rest. pure (if hold then l ∷ rest else rest))
      w
      (check_line-SameStock o l (held_quantity l.product_id existing)
        (find (λ r. r.product_id == l.product_id) rows) w)
      λ hold w₁ h.
        bind-Ensures (SameStock w₁) (SameStock w) (lines_to_hold o rows existing ls)
          (λ rest. pure (if hold then l ∷ rest else rest)) w₁
          (lines_to_hold-SameStock o rows existing ls w₁) (λ rest w₂ k. (k.0 ∙ h.0, k.1 ∙ h.1))

count_held-Consistent :
    (ls : List Line) (w : Inventory) → IsConsistent w.db → Ensures Consistent (count_held ls w)
count_held-Consistent [] w c = c
count_held-Consistent (l ∷ ls) w c = c

hold_all-keeps :
    (o x : ℕ) (wanted to_hold : List Line) (w : Inventory)
    → IsConsistent w.db
    → Ensures Consistent (hold_all o x wanted to_hold w)
hold_all-keeps o x wanted to_hold w c =
    bind-Ensures Consistent Consistent (hold_lines o x to_hold)
      (λ _. count_held to_hold >> pure (record { order_id = o; reserved = wanted })) w
      (hold_lines-keeps o x to_hold w c)
      λ _ w₂ c₂.
        bind-Ensures Consistent Consistent (count_held to_hold)
          (λ _. pure (record { order_id = o; reserved = wanted })) w₂
          (count_held-Consistent to_hold w₂ c₂) (λ _ w₃ c₃. c₃)

-- The rows that `lockItems` returns.
abbrev pub locked : List ℕ → Inventory → List StockItemRow
locked ids w =
    sort_by (λ r. r.product_id) (filter (λ r. any (λ p. p == r.product_id) ids) w.db.stock_items)

pub reserve_in-keeps :
    (ttl now : ℕ) (i : ReserveInput) (w : Inventory)
    → IsConsistent w.db
    → Ensures Consistent (reserve_in ttl now i w)
unfolding reserve_in lock_items find_held_by_order
reserve_in-keeps ttl now i w c =
    let wanted = sum_lines [] i.items in
    let rows = locked (map (λ l. l.product_id) wanted) w in
    let existing = found_for i.order_id w.db.reservations in
    bind-Ensures (SameStock w) Consistent (lines_to_hold i.order_id rows existing wanted)
      (hold_all i.order_id (now + ttl * 1000) wanted) w
      (lines_to_hold-SameStock i.order_id rows existing wanted w)
      λ to_hold w₁ h.
        hold_all-keeps i.order_id (now + ttl * 1000) wanted to_hold w₁
          (same-IsConsistent w.db w₁.db h.0 h.1 c)

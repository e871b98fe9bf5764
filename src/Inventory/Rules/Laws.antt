-- ===== src/Inventory/Rules/Laws.antt =====
-- What the stock rules of apps/inventory-service/src/inventory/stock-rules.ts promise.
use ecommerce_orderflow.Prelude.{
  ◌≡◌, ◌↔◌, true, none, some, arith, +ℤ_parts, -ℤ_parts, double_parts, max_ℤ-le, ℤ, pos, ◌+ℤ◌, ◌-ℤ◌,
  ◌*ℤ◌, ◌≤ℤ◌, max_ℤ,
}
use ecommerce_orderflow.Inventory.Rules.{
  low, out_of_stock, Counts, StockLevels, can_reserve, alert_level_for, suggested_reorder_qty,
}

-- A quantity can be reserved exactly when it is positive and what is left available stays at or
-- above zero.
pub can_reserve_iff :
    (c : Counts) (q : ℤ)
    → (can_reserve c q ≡ true) ↔ ((pos 1 ≤ℤ q) × (c.reserved +ℤ q ≤ℤ c.on_hand))
unfolding can_reserve ◌+ℤ◌ ◌-ℤ◌
can_reserve_iff c q = ground arith

-- The alert is out of stock exactly when nothing is available, low exactly when something is and at
-- most the reorder level, and none exactly when more than both is available.
pub alert_level_for_iff :
    (l : StockLevels)
    → ((alert_level_for l ≡ some out_of_stock) ↔ (l.on_hand ≤ℤ l.reserved))
      × ((alert_level_for l ≡ some low)
          ↔ ((l.reserved +ℤ pos 1 ≤ℤ l.on_hand) × (l.on_hand ≤ℤ l.reserved +ℤ l.reorder_level)))
      × ((alert_level_for l ≡ none) ↔ (
          (l.reserved +ℤ pos 1 ≤ℤ l.on_hand)
          × (l.reserved +ℤ l.reorder_level +ℤ pos 1 ≤ℤ l.on_hand)))
unfolding alert_level_for ◌+ℤ◌ ◌-ℤ◌
alert_level_for_iff l = (ground arith, ground arith, ground arith)

target : StockLevels → ℤ
target l = l.reorder_level *ℤ pos 2 -ℤ (l.on_hand -ℤ l.reserved)

target-le :
    (l : StockLevels) (n : ℤ)
    → (target l ≤ℤ n) ↔ (l.reorder_level +ℤ l.reorder_level +ℤ l.reserved ≤ℤ l.on_hand +ℤ n)
unfolding target
target-le l n = (
  λ h. omega (arith, +ℤ_parts, -ℤ_parts, double_parts),
  λ h. omega (arith, +ℤ_parts, -ℤ_parts, double_parts),
)

-- The suggestion covers the configured quantity, is not negative, brings what is available to twice
-- the reorder level, and is the least such number.
pub suggested_reorder_qty_least :
    (l : StockLevels) (n : ℤ)
    → (suggested_reorder_qty l ≤ℤ n) ↔ (
        (l.reorder_qty ≤ℤ n)
        × (pos 0 ≤ℤ n)
        × (l.reorder_level +ℤ l.reorder_level +ℤ l.reserved ≤ℤ l.on_hand +ℤ n))
unfolding suggested_reorder_qty target
suggested_reorder_qty_least l n = (forth, back)
  where
    wide : ℤ
    wide = max_ℤ l.reorder_qty (target l)

    forth :
        suggested_reorder_qty l ≤ℤ n
        → (l.reorder_qty ≤ℤ n)
          × (pos 0 ≤ℤ n)
          × (l.reorder_level +ℤ l.reorder_level +ℤ l.reserved ≤ℤ l.on_hand +ℤ n)
    forth h =
        let (a, z) = (max_ℤ-le wide (pos 0) n).0 h in
        let (q, t) = (max_ℤ-le l.reorder_qty (target l) n).0 a in (q, z, (target-le l n).0 t)

    back :
        (l.reorder_qty ≤ℤ n)
          × (pos 0 ≤ℤ n)
          × (l.reorder_level +ℤ l.reorder_level +ℤ l.reserved ≤ℤ l.on_hand +ℤ n)
        → suggested_reorder_qty l ≤ℤ n
    back (q, z, t) =
        (max_ℤ-le wide (pos 0) n).1
          ((max_ℤ-le l.reorder_qty (target l) n).1 (q, (target-le l n).1 t), z)

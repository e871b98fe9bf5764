-- ===== src/Inventory/Stock/Asked.antt =====
-- What `reserve` of apps/inventory-service/src/inventory/inventory.service.ts holds for an order.

mod Lines
mod Inserting
use ecommerce_orderflow.Prelude.{
  ℕ, ◌+◌, ◌*◌, ◌≡◌, refl, sym, ap, ◌∙◌, subst, List, [], ◌∷◌, ◌++◌, map, none, some, Option, Bool,
  true, false, ◌||◌, pos, All, any, find, sum_by, ◌==◌, ==_self, arith, inl, inr, Option-cases,
  Bool-cases, if◌then◌else◌, ◌&&◌,
}
use ecommerce_orderflow.Runtime.{ok, err, ◌>>=◌, ◌>>◌, pure, throw}
use ecommerce_orderflow.Runtime.Laws.{Ensures, bind-Ensures, Ensures-map, Ensures-ok}
use ecommerce_orderflow.Inventory.Rules.{can_reserve, available}
use ecommerce_orderflow.Inventory.Tables.{
  StockItemRow, ReservationRow, held, MovementKind, Inventory,
}
use ecommerce_orderflow.Inventory.Repository.Rows.{update_items, shift_reserved}
use ecommerce_orderflow.Inventory.Repository.{
  has_reservation, insert_reservation, adjust_reserved, get_item, lock_items, find_held_by_order,
}
use ecommerce_orderflow.Inventory.Service.Record.{
  Line, ReserveInput, ReserveResult, change_of, record_after, counts_of,
}
use ecommerce_orderflow.Inventory.Service.Reserve.{
  add_wanted, sum_lines, check_line, lines_to_hold, hold_inserted, hold_line, hold_lines,
  count_held, hold_all, reserve_in,
}
use ecommerce_orderflow.Inventory.Stock.Frame.{Untouched}
use ecommerce_orderflow.Inventory.Stock.Consistency.{held_of, held_total}
use ecommerce_orderflow.Inventory.Stock.Holding.{record_after-Untouched, new_hold}
use ecommerce_orderflow.Inventory.Stock.Settled.{found_for}
use ecommerce_orderflow.Inventory.Stock.ReserveCall.{locked}
use ecommerce_orderflow.Inventory.Stock.Asked.Lines.{
  asked_of, IsNew, Distinct, sum_lines-Distinct, asked-sum_lines, rows_of, held_total-rows_of,
  Fresh, All-Fresh-append, append_assoc, found_for-new, All-Fresh,
}
use ecommerce_orderflow.Inventory.Stock.Asked.Inserting.{Rows, hold_lines-Rows}

-- The lines are all to be held, when the order holds nothing yet.
abbrev Selected : List Line → List ReservationRow → List Line → Inventory → Type 0
Selected ls vs got w = (got ≡ ls) × (w.db.reservations ≡ vs)

check_line-fresh :
    (o : ℕ) (l : Line) (found : Option StockItemRow) (w : Inventory)
    → Ensures
        (λ b w'. (b ≡ true) × (w'.db.reservations ≡ w.db.reservations))
        (check_line o l none found w)
check_line-fresh o l none w = tt
check_line-fresh o l (some row) w =
    elim (Bool-cases (can_reserve (counts_of row) (pos l.quantity))) [
      | inl e ↦ rw e (refl, refl)
      | inr e ↦ rw e tt
    ]

lines_to_hold-fresh :
    (o : ℕ) (rows : List StockItemRow) (ls : List Line) (vs : List ReservationRow) (w : Inventory)
    → w.db.reservations ≡ vs
    → Ensures (Selected ls vs) (lines_to_hold o rows [] ls w)
unfolding lines_to_hold
lines_to_hold-fresh o rows [] vs w e = (refl, e)
lines_to_hold-fresh o rows (l ∷ ls) vs w e =
    bind-Ensures (λ b w'. (b ≡ true) × (w'.db.reservations ≡ w.db.reservations))
      (Selected (l ∷ ls) vs) (check_line o l none (find (λ r. r.product_id == l.product_id) rows))
      (λ hold. lines_to_hold o rows [] ls >>= λ rest. pure (if hold then l ∷ rest else rest)) w
      (check_line-fresh o l (find (λ r. r.product_id == l.product_id) rows) w)
      λ b w₁ k.
        bind-Ensures (Selected ls vs) (Selected (l ∷ ls) vs) (lines_to_hold o rows [] ls)
          (λ rest. pure (if b then l ∷ rest else rest)) w₁
          (lines_to_hold-fresh o rows ls vs w₁ (k.1 ∙ e))
          (λ rest w₂ m. (rw k.0 (ap (λ xs. l ∷ xs) m.0), m.1))

count_held-Rows :
    (ls : List Line) (vs : List ReservationRow) (w : Inventory)
    → w.db.reservations ≡ vs
    → Ensures (Rows vs) (count_held ls w)
count_held-Rows [] vs w e = e
count_held-Rows (l ∷ ls) vs w e = e

hold_all-Rows :
    (o x : ℕ) (wanted ls : List Line) (vs : List ReservationRow) (w : Inventory)
    → Ensures (Rows vs) (hold_lines o x ls w)
    → Ensures (Rows vs) (hold_all o x wanted ls w)
hold_all-Rows o x wanted ls vs w h =
    bind-Ensures (Rows vs) (Rows vs) (hold_lines o x ls)
      (λ _. count_held ls >> pure (record { order_id = o; reserved = wanted })) w h
      λ _ w₁ e.
        bind-Ensures (Rows vs) (Rows vs) (count_held ls)
          (λ _. pure (record { order_id = o; reserved = wanted })) w₁ (count_held-Rows ls vs w₁ e)
          (λ _ w₂ e₂. e₂)

reserve_in-Rows :
    (ttl now : ℕ) (i : ReserveInput) (w : Inventory)
    → IsNew i.order_id w
    → Ensures
        (Rows (w.db.reservations ++ rows_of i.order_id (now + ttl * 1000) (sum_lines [] i.items)))
        (reserve_in ttl now i w)
unfolding reserve_in lock_items find_held_by_order
reserve_in-Rows ttl now i w h =
    let o = i.order_id in
    let x = now + ttl * 1000 in
    let vs = w.db.reservations in
    let wanted = sum_lines [] i.items in
    let rows = locked (map (λ l. l.product_id) wanted) w in
    bind-Ensures (Selected wanted vs) (Rows (vs ++ rows_of o x wanted))
      (lines_to_hold o rows (found_for o vs) wanted) (hold_all o x wanted) w
      (subst (λ had. Ensures (Selected wanted vs) (lines_to_hold o rows had wanted w))
        (sym (found_for-new o vs h)) (lines_to_hold-fresh o rows wanted vs w refl))
      λ got w₁ k.
        subst (λ ls. Ensures (Rows (vs ++ rows_of o x wanted)) (hold_all o x wanted ls w₁))
          (sym k.0)
          (hold_all-Rows o x wanted wanted (vs ++ rows_of o x wanted) w₁ (
            hold_lines-Rows o x wanted vs w₁ k.1 (sum_lines-Distinct [] i.items tt)
              (All-Fresh o wanted vs h)))

-- A hold of the order, HELD until the time.
abbrev IsHoldOf : ℕ → ℕ → ReservationRow → Type 0
IsHoldOf o x v = (v.order_id ≡ o) × (v.status ≡ held) × (v.expires_at ≡ some x)

All-IsHoldOf : (o x : ℕ) (ls : List Line) → All (IsHoldOf o x) (rows_of o x ls)
All-IsHoldOf o x [] = tt
All-IsHoldOf o x (l ∷ ls) = ((refl, refl, refl), All-IsHoldOf o x ls)

-- When `reserve` answers an order that has no reservation yet, the reservations are the earlier ones
-- followed by HELD rows of the order, with the time to live from now, that hold of each product exactly
-- what the lines of the request ask of it in all.
pub reserve_in-holds :
    (ttl now : ℕ) (i : ReserveInput) (w : Inventory) (r : ReserveResult)
    → any (λ v. v.order_id == i.order_id) w.db.reservations ≡ false
    → (reserve_in ttl now i w).0 ≡ ok r
    → (rows : List ReservationRow) × ((reserve_in ttl now i w).1.db.reservations
        ≡ w.db.reservations ++ rows)
      × All
          (λ v.
            (v.order_id ≡ i.order_id)
            × (v.status ≡ held)
            × (v.expires_at ≡ some (now + ttl * 1000)))
          rows
      × ((p : ℕ)
          → held_total p rows ≡ sum_by (λ l. if l.product_id == p then l.quantity else 0) i.items)
reserve_in-holds ttl now i w r h e =
    let rows = rows_of i.order_id (now + ttl * 1000) (sum_lines [] i.items) in
    (
      rows,
      Ensures-ok (Rows (w.db.reservations ++ rows)) (reserve_in ttl now i w) r e
          (reserve_in-Rows ttl now i w h),
      All-IsHoldOf i.order_id (now + ttl * 1000) (sum_lines [] i.items),
      λ p. omega (
        arith,
        held_total-rows_of i.order_id (now + ttl * 1000) p [] (sum_lines [] i.items),
        asked-sum_lines p [] i.items,
      ),
    )

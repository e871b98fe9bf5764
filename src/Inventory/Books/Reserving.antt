-- ===== src/Inventory/Books/Reserving.antt =====
-- The books across `reserve` of apps/inventory-service/src/inventory/inventory.service.ts.
use ecommerce_orderflow.Prelude.{
  ℕ, ◌+◌, ◌*◌, ◌≡◌, refl, sym, subst, List, [], ◌∷◌, Bool, true, false, Option, none, some, All,
  All-map, ℤ, pos, arith,
}
use ecommerce_orderflow.Runtime.{◌>>=◌, ◌>>◌}
use ecommerce_orderflow.Runtime.Laws.{Ensures, Ensures-map, bind-Ensures}
use ecommerce_orderflow.Inventory.Tables.{StockItemRow, ReservationRow, MovementKind, Inventory}
use ecommerce_orderflow.Inventory.Repository.{
  Tx, adjust_reserved, get_item, insert_reservation, lock_items, find_held_by_order,
}
use ecommerce_orderflow.Inventory.Service.Record.{
  Line, Change, ReserveInput, change_of, record_after,
}
use ecommerce_orderflow.Inventory.Service.Reserve.{
  check_line, lines_to_hold, sum_lines, hold_inserted, hold_line, hold_lines, count_held, hold_all,
  reserve_in,
}
use ecommerce_orderflow.Inventory.Books.{IsBooked, Keyed, Books, BooksBut}
use ecommerce_orderflow.Inventory.Books.Changes.{Balanced, record_after-Books}
use ecommerce_orderflow.Inventory.Books.Counts.{Books-BooksBut, Unbooked, adjust_reserved-BooksBut}

abbrev pub Booked : {A : Type 0} → A → Inventory → Type 0
Booked a w = Books w.db

-- A statement that leaves the stock, the ledger and the alerts alone.
abbrev pub SameBooks : {A : Type 0} → Inventory → A → Inventory → Type 0
SameBooks w a w' =
    (w'.db.stock_items ≡ w.db.stock_items)
    × (w'.db.stock_movements ≡ w.db.stock_movements)
    × (w'.db.stock_alerts ≡ w.db.stock_alerts)

pub same-Books : (w w' : Inventory) → SameBooks w tt w' → Books w.db → Books w'.db
same-Books w w' s b = record {
  keyed = subst Keyed (sym s.0) b.keyed;
  booked =
      subst (All (IsBooked w'.db)) (sym s.0) (
        All-map (IsBooked w.db) (IsBooked w'.db) (λ r h. rw (s.1, s.2) h) w.db.stock_items
          b.booked);
}

module _ {A : Type 0} (m : Tx A) (w : Inventory) where
  pub same-Booked : Ensures (SameBooks w) (m w) → Books w.db → Ensures Booked (m w)
  same-Booked h b = Ensures-map (SameBooks w) Booked (m w) (λ a w' s. same-Books w w' s b) h

  pub then-Booked :
      {B : Type 0} (f : A → Tx B)
      → Ensures Booked (m w)
      → ((a : A) (w' : Inventory) → Books w'.db → Ensures Booked (f a w'))
      → Ensures Booked ((m >>= f) w)
  then-Booked f h k = bind-Ensures Booked Booked m f w h k

-- `const after = await getItem(…)`, and its record.
pub record_now-Booked :
    (p : ℕ) (c : Change) (w : Inventory)
    → Balanced c
    → BooksBut p w.db
    → Ensures Booked ((get_item p >>= λ after. record_after after c) w)
unfolding get_item
record_now-Booked p c w b k = record_after-Books p c w b k

pub change_reserved-Booked :
    (p : ℕ) (z : ℤ) (c : Change) (w : Inventory)
    → Balanced c
    → Books w.db
    → Ensures Booked ((adjust_reserved p z >> (get_item p >>= λ after. record_after after c)) w)
change_reserved-Booked p z c w b k =
    bind-Ensures (Unbooked p) Booked (adjust_reserved p z)
      (λ _. get_item p >>= λ after. record_after after c) w
      (adjust_reserved-BooksBut p z w (Books-BooksBut p w.db k))
      (λ _ w' h. record_now-Booked p c w' b h)

-- `reserve`
hold_inserted-Booked :
    (o : ℕ) (l : Line) (b : Bool) (w : Inventory)
    → Books w.db
    → Ensures Booked (hold_inserted o l b w)
hold_inserted-Booked o l false w k = k
hold_inserted-Booked o l true w k =
    change_reserved-Booked l.product_id (pos l.quantity)
      (change_of MovementKind.reserve o l.quantity none) w (refl, refl) k

insert_reservation-SameBooks :
    (o p q x : ℕ) (w : Inventory) → Ensures (SameBooks w) (insert_reservation o p q x w)
unfolding insert_reservation
insert_reservation-SameBooks o p q x w = ground arith

hold_lines-Booked :
    (o x : ℕ) (ls : List Line) (w : Inventory) → Books w.db → Ensures Booked (hold_lines o x ls w)
unfolding hold_lines hold_line
hold_lines-Booked o x [] w k = k
hold_lines-Booked o x (l ∷ ls) w k =
    then-Booked (hold_line o x l) w (λ _. hold_lines o x ls)
      (then-Booked (insert_reservation o l.product_id l.quantity x) w (hold_inserted o l)
        (same-Booked (insert_reservation o l.product_id l.quantity x) w
          (insert_reservation-SameBooks o l.product_id l.quantity x w) k)
        (hold_inserted-Booked o l))
      (λ _. hold_lines-Booked o x ls)

check_line-SameBooks :
    (o : ℕ) (l : Line) (had : Option ℕ) (found : Option StockItemRow) (w : Inventory)
    → Ensures (SameBooks w) (check_line o l had found w)
check_line-SameBooks o l had none w = tt
check_line-SameBooks o l (some q) (some row) w = ground arith
check_line-SameBooks o l none (some row) w = ground arith

lines_to_hold-Booked :
    (o : ℕ) (rows : List StockItemRow) (vs : List ReservationRow) (ls : List Line) (w : Inventory)
    → Books w.db
    → Ensures Booked (lines_to_hold o rows vs ls w)
unfolding lines_to_hold
lines_to_hold-Booked o rows vs [] w k = k
lines_to_hold-Booked o rows vs (l ∷ ls) w k =
    then-Booked (check_line o l _ _) w _
      (same-Booked (check_line o l _ _) w (check_line-SameBooks o l _ _ w) k)
      (λ hold w₁ k₁.
        then-Booked (lines_to_hold o rows vs ls) w₁ _ (lines_to_hold-Booked o rows vs ls w₁ k₁)
          (λ rest w₂ k₂. k₂))

count_held-Booked : (ls : List Line) (w : Inventory) → Books w.db → Ensures Booked (count_held ls w)
count_held-Booked [] w k = k
count_held-Booked (l ∷ ls) w k = k

hold_all-Booked :
    (o x : ℕ) (wanted ls : List Line) (w : Inventory)
    → Books w.db
    → Ensures Booked (hold_all o x wanted ls w)
hold_all-Booked o x wanted ls w k =
    then-Booked (hold_lines o x ls) w _ (hold_lines-Booked o x ls w k)
      (λ _ w₁ k₁. then-Booked (count_held ls) w₁ _ (count_held-Booked ls w₁ k₁) (λ _ w₂ k₂. k₂))

pub reserve_in-Booked :
    (ttl now : ℕ) (i : ReserveInput) (w : Inventory)
    → Books w.db
    → Ensures Booked (reserve_in ttl now i w)
unfolding reserve_in lock_items find_held_by_order
reserve_in-Booked ttl now i w k =
    then-Booked (lines_to_hold i.order_id _ _ (sum_lines [] i.items)) w _
      (lines_to_hold-Booked i.order_id _ _ (sum_lines [] i.items) w k)
      (hold_all-Booked i.order_id (now + ttl * 1000) (sum_lines [] i.items))

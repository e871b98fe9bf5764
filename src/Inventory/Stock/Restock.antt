-- ===== src/Inventory/Stock/Restock.antt =====
-- `confirm` and `receive` of apps/inventory-service/src/inventory/inventory.service.ts keep the stock
-- consistent.
use ecommerce_orderflow.Prelude.{
  All-map, filter, ltb, ℕ, ◌≡◌, refl, sym, ap, ◌∙◌, subst, List, [], ◌∷◌, map, none, true, false,
  arith, pos, All, any, find, length, inl, inr, Option-cases, ◌==◌, if◌then◌else◌,
}
use ecommerce_orderflow.Runtime.{pure}
use ecommerce_orderflow.Runtime.Laws.{Ensures, bind-Ensures}
use ecommerce_orderflow.Inventory.Tables.{
  StockItemRow, ReservationRow, Db, Inventory, outcome_confirmed, ReservationOutcome,
}
use ecommerce_orderflow.Inventory.Repository.Rows.{update_items, shift_on_hand}
use ecommerce_orderflow.Inventory.Repository.{
  holds, lock_items, get_item, adjust_on_hand, confirm_reservation,
}
use ecommerce_orderflow.Inventory.Service.Record.{count_outcome, ReceiveInput, record_and_evaluate}
use ecommerce_orderflow.Inventory.Service.Reserve.{count_if, confirm_in}
use ecommerce_orderflow.Inventory.Service.Settle.{
  first_or_unknown, or_else, receipt, audit_receipt, restock, receive_in,
}
use ecommerce_orderflow.Inventory.Stock.Frame.{Untouched, record_and_evaluate-Untouched}
use ecommerce_orderflow.Inventory.Stock.Consistency.{held_total, IsStocked, IsKnown, IsConsistent}
use ecommerce_orderflow.Inventory.Stock.Updates.{stock_up, update-stock_up, any-map}
use ecommerce_orderflow.Inventory.Stock.Holding.{same-IsConsistent}
use ecommerce_orderflow.Inventory.Stock.Reserve.{Consistent}
use ecommerce_orderflow.Inventory.Stock.ReserveCall.{SameStock, locked}

-- Clearing the expiry changes no quantity and no status.
unexpired : ℕ → List ReservationRow → List ReservationRow
unexpired o vs = map (λ v. if holds o v then record v { expires_at = none } else v) vs

held_total-unexpired :
    (o p : ℕ) (vs : List ReservationRow) → held_total p (unexpired o vs) ≡ held_total p vs
unfolding unexpired
held_total-unexpired o p [] = refl
held_total-unexpired o p (v ∷ vs) = ground (arith, held_total-unexpired o p vs)

unexpired-IsKnown :
    (o : ℕ) (d d' : Db) (vs : List ReservationRow)
    → d'.stock_items ≡ d.stock_items
    → All (IsKnown d) vs
    → All (IsKnown d') (unexpired o vs)
unfolding unexpired
unexpired-IsKnown o d d' [] e h = tt
unexpired-IsKnown o d d' (v ∷ vs) e h = (
  ground (arith, h.0, ap (any (λ r. r.product_id == v.product_id)) e),
  unexpired-IsKnown o d d' vs e h.1,
)

counted-unexpired :
    (o : ℕ) (vs : List ReservationRow) (items : List StockItemRow)
    → All (λ r. r.reserved ≡ held_total r.product_id vs) items
    → All (λ r. r.reserved ≡ held_total r.product_id (unexpired o vs)) items
counted-unexpired o vs [] h = tt
counted-unexpired o vs (r ∷ rs) h =
    (h.0 ∙ sym (held_total-unexpired o r.product_id vs), counted-unexpired o vs rs h.1)

count_if-SameStock :
    (o : ReservationOutcome) (n : ℕ) (w : Inventory) → Ensures (SameStock w) (count_if o n w)
count_if-SameStock o n w =
    elim (ltb 0 n) as (λ b. Ensures (SameStock w) ((if b then count_outcome o else pure tt) w)) [
      | true ↦ (refl, refl)
      | false ↦ (refl, refl)
    ]

unexpired-IsConsistent :
    (o : ℕ) (d d' : Db)
    → d'.stock_items ≡ d.stock_items
    → d'.reservations ≡ unexpired o d.reservations
    → IsConsistent d
    → IsConsistent d'
unexpired-IsConsistent o d d' e f c = record {
  counted = rw (e, f) (counted-unexpired o d.reservations d.stock_items c.counted);
  stocked = rw e c.stocked;
  known = subst (All (IsKnown d')) (sym f) (unexpired-IsKnown o d d' d.reservations e c.known);
}

pub confirm_in-keeps :
    (o : ℕ) (w : Inventory) → IsConsistent w.db → Ensures Consistent (confirm_in o w)
unfolding confirm_in confirm_reservation unexpired
confirm_in-keeps o w c =
    let n = length (filter (holds o) w.db.reservations) in
    let w₁ = (confirm_reservation o w).1 in
    bind-Ensures (SameStock w₁) Consistent (count_if outcome_confirmed n) (λ _. pure n) w₁
      (count_if-SameStock outcome_confirmed n w₁)
      (λ _ w₂ h. unexpired-IsConsistent o w.db w₂.db h.0 h.1 c)

counted-stock_up :
    (p q : ℕ) (vs : List ReservationRow) (items : List StockItemRow)
    → All (λ r. r.reserved ≡ held_total r.product_id vs) items
    → All (λ r. r.reserved ≡ held_total r.product_id vs) (map (stock_up p q) items)
counted-stock_up p q vs [] h = tt
counted-stock_up p q vs (r ∷ rs) h = (h.0, counted-stock_up p q vs rs h.1)

stocked_up-IsConsistent :
    (p q : ℕ) (d d' : Db)
    → IsConsistent d
    → All IsStocked (map (stock_up p q) d.stock_items)
    → d'.stock_items ≡ map (stock_up p q) d.stock_items
    → d'.reservations ≡ d.reservations
    → IsConsistent d'
stocked_up-IsConsistent p q d d' c s e f = record {
  counted = rw (e, f) (counted-stock_up p q d.reservations d.stock_items c.counted);
  stocked = rw e s;
  known = subst (All (IsKnown d')) (sym f) (
      All-map (IsKnown d) (IsKnown d')
        (λ v k. record {
          positive = k.positive;
          quantity_fits = k.quantity_fits;
          item_known =
              ap (any (λ r. r.product_id == v.product_id)) e
              ∙ any-map v.product_id (stock_up p q) d.stock_items (λ r. refl)
              ∙ k.item_known;
        })
        d.reservations c.known);
}

adjust_on_hand-keeps :
    (p q : ℕ) (w : Inventory) → IsConsistent w.db → Ensures Consistent (adjust_on_hand p (pos q) w)
unfolding adjust_on_hand
adjust_on_hand-keeps p q w c =
    elim (Option-cases (update_items p (shift_on_hand (pos q)) w.db.stock_items)) [
      | inl e ↦ rw e tt
      | inr (out, e) ↦
          let (f, k) = update-stock_up p q w.db.stock_items out c.stocked e in
          rw e (stocked_up-IsConsistent p q w.db _ c k f refl)
    ]

abbrev current : StockItemRow → ReceiveInput → Inventory → StockItemRow
current row i w = or_else (find (λ r. r.product_id == i.product_id) w.db.stock_items) row

-- What follows the new count in `receive`.
audit_receipt-keeps :
    (i : ReceiveInput) (row : StockItemRow) (w : Inventory)
    → IsConsistent w.db
    → Ensures Consistent (audit_receipt i row w)
unfolding get_item
audit_receipt-keeps i row w c =
    bind-Ensures (λ _ w'. Untouched w w') Consistent
      (record_and_evaluate (current row i w) (receipt i))
      (λ after. pure (record { product_id = i.product_id; on_hand = after.on_hand })) w
      (record_and_evaluate-Untouched (current row i w) (receipt i) w)
      (λ _ w' u. same-IsConsistent w.db w'.db u.same_items u.same_reservations c)

restock-keeps :
    (i : ReceiveInput) (row : StockItemRow) (w : Inventory)
    → IsConsistent w.db
    → Ensures Consistent (restock i row w)
restock-keeps i row w c =
    bind-Ensures Consistent Consistent (adjust_on_hand i.product_id (pos i.quantity))
      (λ _. audit_receipt i row) w (adjust_on_hand-keeps i.product_id i.quantity w c)
      (λ _ w' c'. audit_receipt-keeps i row w' c')

first_or_unknown-keeps :
    (p : ℕ) (rows : List StockItemRow) (w : Inventory)
    → IsConsistent w.db
    → Ensures Consistent (first_or_unknown p rows w)
first_or_unknown-keeps p [] w c = tt
first_or_unknown-keeps p (row ∷ rows) w c = c

pub receive_in-keeps :
    (i : ReceiveInput) (w : Inventory) → IsConsistent w.db → Ensures Consistent (receive_in i w)
unfolding receive_in lock_items
receive_in-keeps i w c =
    bind-Ensures Consistent Consistent
      (first_or_unknown i.product_id (locked (i.product_id ∷ []) w)) (restock i) w
      (first_or_unknown-keeps i.product_id (locked (i.product_id ∷ []) w) w c)
      (λ row w' c'. restock-keeps i row w' c')

-- ===== src/Inventory/Books/Settling.antt =====
-- The books across `confirm`, `release`, `commit` and `receive` of
-- apps/inventory-service/src/inventory/inventory.service.ts.
use ecommerce_orderflow.Prelude.{
  ℕ, ◌≡◌, refl, String, List, [], ◌∷◌, All, All-sort_by, Bool-cases, inl, inr, sym, none, some, any,
  filter, length, pos, neg_ℕ, ◌==◌, ==_iff, arith,
}
use ecommerce_orderflow.Runtime.{pure, ◌>>◌}
use ecommerce_orderflow.Runtime.Laws.{Ensures, bind-Ensures}
use ecommerce_orderflow.Inventory.Tables.{StockItemRow, ReservationRow, MovementKind, Inventory}
use ecommerce_orderflow.Inventory.Repository.{
  adjust_reserved, adjust_on_hand, get_item, set_reservation_status, lock_items, find_held_by_order,
  confirm_reservation, mark_event_processed,
}
use ecommerce_orderflow.Inventory.Service.Record.{ReceiveInput, change_of, record_and_evaluate}
use ecommerce_orderflow.Inventory.Service.Reserve.{confirm_in}
use ecommerce_orderflow.Inventory.Service.Settle.{
  release_hold, release_holds, mark_released, release_in, commit_hold, commit_holds, mark_committed,
  commit_in, first_or_unknown, receipt, audit_receipt, restock, receive_in,
}
use ecommerce_orderflow.Inventory.Stock.Settled.{found_for}
use ecommerce_orderflow.Inventory.Books.{Books, BooksBut}
use ecommerce_orderflow.Inventory.Books.Changes.{record_current-Books}
use ecommerce_orderflow.Inventory.Books.Counts.{
  Books-BooksBut, Unbooked, adjust_reserved-BooksBut, adjust_on_hand-BooksBut,
}
use ecommerce_orderflow.Inventory.Books.Reserving.{
  Booked, SameBooks, same-Booked, then-Booked, record_now-Booked, change_reserved-Booked,
}

confirm_in-SameBooks : (o : ℕ) (w : Inventory) → Ensures (SameBooks w) (confirm_in o w)
unfolding confirm_in confirm_reservation
confirm_in-SameBooks o w = ground arith

pub confirm_in-Booked : (o : ℕ) (w : Inventory) → Books w.db → Ensures Booked (confirm_in o w)
confirm_in-Booked o w = same-Booked (confirm_in o) w (confirm_in-SameBooks o w)

-- `release`
release_holds-Booked :
    (o : ℕ) (reason : String) (vs : List ReservationRow) (w : Inventory)
    → Books w.db
    → Ensures Booked (release_holds o reason vs w)
unfolding release_holds release_hold
release_holds-Booked o reason [] w k = k
release_holds-Booked o reason (v ∷ vs) w k =
    then-Booked (release_hold o reason v) w _
      (change_reserved-Booked v.product_id (neg_ℕ v.quantity)
        (change_of MovementKind.release o v.quantity (some reason)) w (refl, refl) k)
      (λ _. release_holds-Booked o reason vs)

mark_released-SameBooks :
    (o : ℕ) (vs : List ReservationRow) (w : Inventory)
    → Ensures (SameBooks w) (mark_released o vs w)
unfolding set_reservation_status
mark_released-SameBooks o [] w = (refl, refl, refl)
mark_released-SameBooks o (v ∷ vs) w = (refl, refl, refl)

pub release_in-Booked :
    (o : ℕ) (reason : String) (w : Inventory) → Books w.db → Ensures Booked (release_in o reason w)
unfolding release_in find_held_by_order
release_in-Booked o reason w k =
    let found = found_for o w.db.reservations in
    then-Booked (release_holds o reason found) w (λ _. mark_released o found >> pure (length found))
      (release_holds-Booked o reason found w k)
      λ _ w₁ k₁.
        then-Booked (mark_released o found) w₁ (λ _. pure (length found))
          (same-Booked (mark_released o found) w₁ (mark_released-SameBooks o found w₁) k₁)
          (λ _ w₂ k₂. k₂)

-- `commit`: between the two statements the product's books lag behind.
commit_hold-Booked :
    (o : ℕ) (v : ReservationRow) (w : Inventory) → Books w.db → Ensures Booked (commit_hold o v w)
unfolding commit_hold
commit_hold-Booked o v w k =
    let p = v.product_id in
    bind-Ensures (Unbooked p) Booked (adjust_reserved p (neg_ℕ v.quantity)) _ w
      (adjust_reserved-BooksBut p (neg_ℕ v.quantity) w (Books-BooksBut p w.db k))
      λ _ w₁ k₁.
        bind-Ensures (Unbooked p) Booked (adjust_on_hand p (neg_ℕ v.quantity)) _ w₁
          (adjust_on_hand-BooksBut p (neg_ℕ v.quantity) w₁ k₁)
          (λ _ w₂.
            record_now-Booked p (change_of MovementKind.commit o v.quantity none) w₂ (refl, refl))

commit_holds-Booked :
    (o : ℕ) (vs : List ReservationRow) (w : Inventory)
    → Books w.db
    → Ensures Booked (commit_holds o vs w)
unfolding commit_holds
commit_holds-Booked o [] w k = k
commit_holds-Booked o (v ∷ vs) w k =
    then-Booked (commit_hold o v) w _ (commit_hold-Booked o v w k) (λ _. commit_holds-Booked o vs)

mark_committed-SameBooks :
    (o : ℕ) (vs : List ReservationRow) (w : Inventory)
    → Ensures (SameBooks w) (mark_committed o vs w)
unfolding set_reservation_status
mark_committed-SameBooks o [] w = (refl, refl, refl)
mark_committed-SameBooks o (v ∷ vs) w = (refl, refl, refl)

pub commit_in-Booked : (o : ℕ) (w : Inventory) → Books w.db → Ensures Booked (commit_in o w)
unfolding commit_in find_held_by_order
commit_in-Booked o w k =
    let found = found_for o w.db.reservations in
    then-Booked (commit_holds o found) w (λ _. mark_committed o found >> pure (length found))
      (commit_holds-Booked o found w k)
      λ _ w₁ k₁.
        then-Booked (mark_committed o found) w₁ (λ _. pure (length found))
          (same-Booked (mark_committed o found) w₁ (mark_committed-SameBooks o found w₁) k₁)
          (λ _ w₂ k₂. k₂)

-- `receive`: the row that was locked has the product's id.
abbrev Named : ℕ → StockItemRow → Inventory → Type 0
Named p row w = (row.product_id ≡ p) × Books w.db

first-Named :
    (p : ℕ) (rows : List StockItemRow) (w : Inventory)
    → All (λ r. r.product_id ≡ p) rows
    → Books w.db
    → Ensures (Named p) (first_or_unknown p rows w)
first-Named p [] w h k = tt
first-Named p (row ∷ rows) w h k = (h.0, k)

audit_receipt-Booked :
    (i : ReceiveInput) (row : StockItemRow) (w : Inventory)
    → row.product_id ≡ i.product_id
    → BooksBut i.product_id w.db
    → Ensures Booked (audit_receipt i row w)
unfolding get_item
audit_receipt-Booked i row w q k =
    then-Booked (record_and_evaluate _ (receipt i)) w _
      (record_current-Books i.product_id row (receipt i) w (refl, refl) q k) (λ _ w₁ k₁. k₁)

restock-Booked :
    (i : ReceiveInput) (row : StockItemRow) (w : Inventory)
    → Named i.product_id row w
    → Ensures Booked (restock i row w)
restock-Booked i row w n =
    let p = i.product_id in
    bind-Ensures (Unbooked p) Booked (adjust_on_hand p (pos i.quantity)) (λ _. audit_receipt i row)
      w (adjust_on_hand-BooksBut p (pos i.quantity) w (Books-BooksBut p w.db n.1))
      (λ _ w₁ k₁. audit_receipt-Booked i row w₁ n.0 k₁)

locked-named :
    (p : ℕ) (rs : List StockItemRow)
    → All (λ r. r.product_id ≡ p) (filter (λ r. any (λ k. k == r.product_id) (p ∷ [])) rs)
locked-named p [] = tt
locked-named p (r ∷ rs) = elim (Bool-cases (p == r.product_id)) [
  | inl e ↦ rw e (sym ((==_iff p r.product_id).0 e), locked-named p rs)
  | inr e ↦ rw e (locked-named p rs)
]

pub receive_in-Booked :
    (i : ReceiveInput) (w : Inventory) → Books w.db → Ensures Booked (receive_in i w)
unfolding receive_in lock_items
receive_in-Booked i w k =
    let p = i.product_id in
    bind-Ensures (Named p) Booked (first_or_unknown p _) (restock i) w
      (first-Named p _ w
        (All-sort_by (λ r. r.product_id ≡ p) (λ r. r.product_id) _
          (locked-named p w.db.stock_items))
        k)
      (restock-Booked i)

mark_event_processed-SameBooks :
    (id : String) (w : Inventory) → Ensures (SameBooks w) (mark_event_processed id w)
unfolding mark_event_processed
mark_event_processed-SameBooks id w = ground arith

pub mark_event_processed-Booked :
    (id : String) (w : Inventory) → Books w.db → Ensures Booked (mark_event_processed id w)
mark_event_processed-Booked id w =
    same-Booked (mark_event_processed id) w (mark_event_processed-SameBooks id w)

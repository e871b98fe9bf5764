-- ===== src/Inventory/Stock/Asked/Inserting.antt =====
-- The loop of `reserve` in apps/inventory-service/src/inventory/inventory.service.ts that inserts
-- the holds.
use ecommerce_orderflow.Prelude.{
  ℕ, ◌≡◌, refl, sym, ap, ◌∙◌, subst, List, [], ◌∷◌, ◌++◌, none, true, false, pos, All, find, ◌==◌,
  arith, inl, inr, Option-cases,
}
use ecommerce_orderflow.Runtime.{◌>>=◌}
use ecommerce_orderflow.Runtime.Laws.{Ensures, bind-Ensures, Ensures-map}
use ecommerce_orderflow.Inventory.Tables.{ReservationRow, MovementKind, Inventory}
use ecommerce_orderflow.Inventory.Repository.Rows.{update_items, shift_reserved}
use ecommerce_orderflow.Inventory.Repository.{
  has_reservation, insert_reservation, adjust_reserved, get_item,
}
use ecommerce_orderflow.Inventory.Service.Record.{Line, change_of, record_after}
use ecommerce_orderflow.Inventory.Service.Reserve.{hold_inserted, hold_line, hold_lines}
use ecommerce_orderflow.Inventory.Stock.Frame.{Untouched}
use ecommerce_orderflow.Inventory.Stock.Holding.{record_after-Untouched, new_hold}
use ecommerce_orderflow.Inventory.Stock.Asked.Lines.{
  Distinct, rows_of, Fresh, All-Fresh-append, append_assoc,
}

insert_reservation-fresh :
    (o p q x : ℕ) (w : Inventory)
    → has_reservation o p w.db ≡ false
    → Ensures
        (λ b w'. (b ≡ true) × (w'.db.reservations ≡ w.db.reservations ++ new_hold o p q x ∷ []))
        (insert_reservation o p q x w)
unfolding insert_reservation
insert_reservation-fresh o p q x w h = ground arith

abbrev pub Rows : {A : Type 0} → List ReservationRow → A → Inventory → Type 0
Rows vs _ w = w.db.reservations ≡ vs

adjust_reserved-Rows :
    (p q : ℕ) (w : Inventory) → Ensures (Rows w.db.reservations) (adjust_reserved p (pos q) w)
unfolding adjust_reserved
adjust_reserved-Rows p q w =
    elim (Option-cases (update_items p (shift_reserved (pos q)) w.db.stock_items)) [
      | inl e ↦ rw e tt
      | inr (out, e) ↦ rw e refl
    ]

hold_inserted-Rows :
    (o : ℕ) (l : Line) (w : Inventory) → Ensures (Rows w.db.reservations) (hold_inserted o l true w)
unfolding get_item
hold_inserted-Rows o l w =
    bind-Ensures (Rows w.db.reservations) (Rows w.db.reservations)
      (adjust_reserved l.product_id (pos l.quantity))
      (λ _. get_item l.product_id >>= λ after.
        record_after after (change_of MovementKind.reserve o l.quantity none))
      w (adjust_reserved-Rows l.product_id l.quantity w)
      λ _ v h.
        let found = find (λ r. r.product_id == l.product_id) v.db.stock_items in
        let c = change_of MovementKind.reserve o l.quantity none in
        Ensures-map (λ _ w'. Untouched v w') (Rows w.db.reservations) (record_after found c v)
          (λ a w' u. u.same_reservations ∙ h) (record_after-Untouched found c v)

hold_line-Rows :
    (o x : ℕ) (l : Line) (w : Inventory)
    → has_reservation o l.product_id w.db ≡ false
    → Ensures
        (Rows (w.db.reservations ++ new_hold o l.product_id l.quantity x ∷ []))
        (hold_line o x l w)
unfolding hold_line
hold_line-Rows o x l w h =
    let vs = w.db.reservations ++ new_hold o l.product_id l.quantity x ∷ [] in
    bind-Ensures (λ b w'. (b ≡ true) × (w'.db.reservations ≡ vs)) (Rows vs)
      (insert_reservation o l.product_id l.quantity x) (hold_inserted o l) w
      (insert_reservation-fresh o l.product_id l.quantity x w h)
      λ b v k. rw k.0 (
        Ensures-map (Rows v.db.reservations) (Rows vs) (hold_inserted o l true v)
          (λ _ v' e. e ∙ k.1) (hold_inserted-Rows o l v))

pub hold_lines-Rows :
    (o x : ℕ) (ls : List Line) (vs : List ReservationRow) (w : Inventory)
    → w.db.reservations ≡ vs
    → Distinct ls
    → All (Fresh o vs) ls
    → Ensures (Rows (vs ++ rows_of o x ls)) (hold_lines o x ls w)
unfolding hold_lines
hold_lines-Rows o x [] vs w e d h = e ∙ sym (append_nil vs)
  where
    append_nil : (vs : List ReservationRow) → vs ++ [] ≡ vs
    append_nil [] = refl
    append_nil (v ∷ vs) = ap (λ xs. v ∷ xs) (append_nil vs)
hold_lines-Rows o x (l ∷ ls) vs w e d h =
    let added = new_hold o l.product_id l.quantity x in
    bind-Ensures (Rows (vs ++ added ∷ [])) (Rows (vs ++ rows_of o x (l ∷ ls))) (hold_line o x l)
      (λ _. hold_lines o x ls) w
      (subst (λ us. Ensures (Rows (us ++ added ∷ [])) (hold_line o x l w)) e
        (hold_line-Rows o x l w (subst (λ us. Fresh o us l) (sym e) h.0)))
      λ _ w₁ k.
        subst (λ us. Ensures (Rows us) (hold_lines o x ls w₁))
          (append_assoc vs added (rows_of o x ls))
          (hold_lines-Rows o x ls (vs ++ added ∷ []) w₁ k d.1
            (All-Fresh-append o x l vs ls h.1 d.0))

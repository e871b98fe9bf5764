-- ===== src/Inventory/Stock/Reserve.antt =====
-- The loops and calls of `reserve` in apps/inventory-service/src/inventory/inventory.service.ts keep
-- the database consistent.
use ecommerce_orderflow.Prelude.{
  ℕ, ◌≤◌, ◌<◌, ◌≡◌, refl, sym, ap, ◌∙◌, subst, List, [], ◌∷◌, ◌++◌, map, none, Bool, true, false,
  pos, All, any, find, ◌==◌, inl, inr, Option-cases, All-map,
}
use ecommerce_orderflow.Runtime.{◌>>=◌}
use ecommerce_orderflow.Runtime.Laws.{Ensures, bind-Ensures, Ensures-map}
use ecommerce_orderflow.Inventory.Tables.{Db, MovementKind, Inventory}
use ecommerce_orderflow.Inventory.Repository.Rows.{int4_max, update_items, shift_reserved}
use ecommerce_orderflow.Inventory.Repository.{
  has_item, insert_reservation, adjust_reserved, get_item,
}
use ecommerce_orderflow.Inventory.Service.Record.{Line, Change, change_of, record_after}
use ecommerce_orderflow.Inventory.Service.Reserve.{hold_inserted, hold_line, hold_lines}
use ecommerce_orderflow.Inventory.Stock.Frame.{Untouched}
use ecommerce_orderflow.Inventory.Stock.Consistency.{IsStocked, IsKnown, IsConsistent}
use ecommerce_orderflow.Inventory.Stock.Updates.{raise, update-raise, any-map}
use ecommerce_orderflow.Inventory.Stock.Holding.{
  same-IsConsistent, record_after-Untouched, Inserted, new_hold, insert_reservation-Inserted,
  counted-raise, All-append_one,
}

abbrev pub Consistent : {A : Type 0} → A → Inventory → Type 0
Consistent a w = IsConsistent w.db

-- An increment of `reserved` that ran.
abbrev Raised : ℕ → ℕ → Inventory → Inventory → Type 0
Raised p q w w' =
    (w'.db.stock_items ≡ map (raise p q) w.db.stock_items)
    × All IsStocked (map (raise p q) w.db.stock_items)
    × (w'.db.reservations ≡ w.db.reservations)

adjust_reserved-Raised :
    (p q : ℕ) (w : Inventory)
    → All IsStocked w.db.stock_items
    → Ensures (λ _ w'. Raised p q w w') (adjust_reserved p (pos q) w)
unfolding adjust_reserved
adjust_reserved-Raised p q w h =
    elim (Option-cases (update_items p (shift_reserved (pos q)) w.db.stock_items)) [
      | inl e ↦ rw e tt
      | inr (out, e) ↦ let (f, k) = update-raise p q w.db.stock_items out h e in rw e (f, k, refl)
    ]

-- A new hold and its increment together are consistent.
held-IsConsistent :
    (o p q x : ℕ) (d d' : Db)
    → IsConsistent d
    → has_item p d ≡ true
    → 0 < q
    → q ≤ int4_max
    → d'.stock_items ≡ map (raise p q) d.stock_items
    → All IsStocked (map (raise p q) d.stock_items)
    → d'.reservations ≡ d.reservations ++ new_hold o p q x ∷ []
    → IsConsistent d'
held-IsConsistent o p q x d d' c known positive fits e s f = record {
  counted = rw (e, f) (counted-raise o p q x d.reservations d.stock_items c.counted);
  stocked = rw e s;
  known = subst (All (IsKnown d')) (sym f) (
      All-append_one (IsKnown d') d.reservations (new_hold o p q x)
        (All-map (IsKnown d) (IsKnown d')
          (λ v k. record {
            positive = k.positive;
            quantity_fits = k.quantity_fits;
            item_known = same_item v.product_id ∙ k.item_known;
          })
          d.reservations c.known)
        (record { positive = positive; quantity_fits = fits; item_known = same_item p ∙ known }));
}
  where
    same_item : (p' : ℕ) → has_item p' d' ≡ has_item p' d
    same_item p' =
        ap (any (λ r. r.product_id == p')) e ∙ any-map p' (raise p q) d.stock_items (λ r. refl)

audited :
    (p : ℕ) (c : Change) (w : Inventory)
    → IsConsistent w.db
    → Ensures Consistent ((get_item p >>= λ after. record_after after c) w)
unfolding get_item
audited p c w h =
    let r = record_after (find (λ r. r.product_id == p) w.db.stock_items) c w in
    Ensures-map (λ _ w'. Untouched w w') Consistent r
      (λ a w' u. same-IsConsistent w.db w'.db u.same_items u.same_reservations h)
      (record_after-Untouched (find (λ r. r.product_id == p) w.db.stock_items) c w)

hold_inserted-keeps :
    (o x : ℕ) (l : Line) (w w' : Inventory) (inserted : Bool)
    → IsConsistent w.db
    → Inserted o l.product_id l.quantity x w inserted w'
    → Ensures Consistent (hold_inserted o l inserted w')
hold_inserted-keeps o x l w w' false c i = rw i c
hold_inserted-keeps o x l w w' true c (items, rows, known, positive, fits) =
    bind-Ensures (λ _ v. Raised l.product_id l.quantity w' v) Consistent
      (adjust_reserved l.product_id (pos l.quantity))
      (λ _. get_item l.product_id >>= λ after.
        record_after after (change_of MovementKind.reserve o l.quantity none))
      w' (adjust_reserved-Raised l.product_id l.quantity w' (rw items c.stocked))
      λ _ v h. audited l.product_id (change_of MovementKind.reserve o l.quantity none) v (
        held-IsConsistent o l.product_id l.quantity x w.db v.db c known positive fits
          (h.0 ∙ ap (map (raise l.product_id l.quantity)) items)
          (subst (λ s. All IsStocked (map (raise l.product_id l.quantity) s)) items h.1)
          (h.2 ∙ rows))

hold_line-keeps :
    (o x : ℕ) (l : Line) (w : Inventory)
    → IsConsistent w.db
    → Ensures Consistent (hold_line o x l w)
unfolding hold_line
hold_line-keeps o x l w c =
    bind-Ensures (Inserted o l.product_id l.quantity x w) Consistent
      (insert_reservation o l.product_id l.quantity x) (hold_inserted o l) w
      (insert_reservation-Inserted o l.product_id l.quantity x w)
      (λ inserted w' i. hold_inserted-keeps o x l w w' inserted c i)

pub hold_lines-keeps :
    (o x : ℕ) (ls : List Line) (w : Inventory)
    → IsConsistent w.db
    → Ensures Consistent (hold_lines o x ls w)
unfolding hold_lines
hold_lines-keeps o x [] w c = c
hold_lines-keeps o x (l ∷ ls) w c =
    bind-Ensures Consistent Consistent (hold_line o x l) (λ _. hold_lines o x ls) w
      (hold_line-keeps o x l w c) (λ _ w' c'. hold_lines-keeps o x ls w' c')

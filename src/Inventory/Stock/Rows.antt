-- ===== src/Inventory/Stock/Rows.antt =====
-- What stays true of every reservation of apps/inventory-service/src: `reserve`.
pub mod Settling
pub mod Requests
use ecommerce_orderflow.Prelude.{
  ℕ, ◌+◌, ◌*◌, ◌≡◌, refl, sym, subst, String, List, [], ◌∷◌, ◌++◌, Bool, true, false, none, ℤ, pos,
  All, arith, map, if◌then◌else◌, ◌==◌, ==_iff, Bool-cases, inl, inr, find,
}
use ecommerce_orderflow.Runtime.{Result, ok, err, ◌>>=◌}
use ecommerce_orderflow.Runtime.Laws.{Ensures, Ensures-map, bind-Ensures}
use ecommerce_orderflow.Inventory.Errors.{Thrown}
use ecommerce_orderflow.Inventory.Tables.{
  StockItemRow, ReservationRow, ReservationStatus, held, released, committed, MovementKind,
  Inventory,
}
use ecommerce_orderflow.Inventory.Repository.{
  Tx, holds, lock_items, get_item, adjust_reserved, adjust_on_hand, insert_reservation,
  find_held_by_order,
}
use ecommerce_orderflow.Inventory.Service.Record.{
  Line, Change, ReserveInput, ReceiveInput, change_of, record_after, record_and_evaluate,
}
use ecommerce_orderflow.Inventory.Service.Reserve.{
  sum_lines, hold_inserted, hold_line, hold_lines, count_held, reserve_in, confirm_in,
  lines_to_hold,
}
use ecommerce_orderflow.Inventory.Service.Settle.{
  release_in, commit_in, first_or_unknown, or_else, receipt, audit_receipt, restock, receive_in,
}
use ecommerce_orderflow.Inventory.Stock.Frame.{Untouched, record_and_evaluate-Untouched}
use ecommerce_orderflow.Inventory.Stock.Consistency.{IsConsistent}
use ecommerce_orderflow.Inventory.Stock.Holding.{
  record_after-Untouched, Inserted, new_hold, insert_reservation-Inserted,
}
use ecommerce_orderflow.Inventory.Stock.ReserveCall.{SameStock, lines_to_hold-SameStock}
use ecommerce_orderflow.Inventory.Stock.Settled.{marked}
use ecommerce_orderflow.Inventory.Stock.Release.{release_in-Settles, commit_in-Settles}
use ecommerce_orderflow.Inventory.Stock.Once.{unexpiring, confirmed_rows}

-- What holds of a reservation through what can become of it. `may_hold` says of which orders a reservation
-- may be made, `may_commit` of which one may be committed.
pub record IsRowKept (P : ReservationRow → Type 0) (may_hold may_commit : ℕ → Type 0) : Type 0 where
  pub new_kept : (o p q x : ℕ) → may_hold o → P (new_hold o p q x)
  pub released_kept : (v : ReservationRow) → P v → P (record v { status = released })
  pub committed_kept :
      (v : ReservationRow) → may_commit v.order_id → P v → P (record v { status = committed })
  pub unexpired_kept : (v : ReservationRow) → P v → P (record v { expires_at = none })

abbrev pub Throughout : (ReservationRow → Type 0) → {A : Type 0} → A → Inventory → Type 0
Throughout P a w = All P w.db.reservations

-- An update of the holds of an order.
pub All-update_holds :
    (P : ReservationRow → Type 0) (o : ℕ) (f : ReservationRow → ReservationRow)
    (vs : List ReservationRow)
    → ((v : ReservationRow) → v.order_id ≡ o → P v → P (f v))
    → All P vs
    → All P (map (λ v. if holds o v then f v else v) vs)
All-update_holds P o f [] k h = tt
All-update_holds P o f (v ∷ vs) k h = elim (Bool-cases (holds o v)) [
  | inl e ↦
      rw e (k v ((==_iff v.order_id o).0 (ground (arith, e))) h.0, All-update_holds P o f vs k h.1)
  | inr e ↦ rw e (h.0, All-update_holds P o f vs k h.1)
]

All-append_one :
    (P : ReservationRow → Type 0) (vs : List ReservationRow) (v : ReservationRow)
    → P v
    → All P vs
    → All P (vs ++ v ∷ [])
All-append_one P [] v k h = (k, tt)
All-append_one P (x ∷ vs) v k h = (h.0, All-append_one P vs v k h.1)

-- A call that leaves the reservations alone.
abbrev pub SameRows : {A : Type 0} → Inventory → A → Inventory → Type 0
SameRows w a w' = w'.db.reservations ≡ w.db.reservations

module _ (P : ReservationRow → Type 0) (may_hold may_commit : ℕ → Type 0)
    (kept : IsRowKept P may_hold may_commit) where
  pub same-Throughout :
      {A : Type 0} (m : Tx A) (w : Inventory)
      → Ensures (SameRows w) (m w)
      → Throughout P tt w
      → Ensures (Throughout P) (m w)
  same-Throughout m w h k =
      Ensures-map (SameRows w) (Throughout P) (m w) (λ a w' e. subst (All P) (sym e) k) h

  pub then-Throughout :
      {A B : Type 0} (m : Tx A) (f : A → Tx B) (w : Inventory)
      → Ensures (Throughout P) (m w)
      → ((a : A) (w' : Inventory) → Throughout P tt w' → Ensures (Throughout P) (f a w'))
      → Ensures (Throughout P) ((m >>= f) w)
  then-Throughout m f w h k = bind-Ensures (Throughout P) (Throughout P) m f w h k

  -- The record of a change.
  record_now-SameRows :
      (p : ℕ) (c : Change) (w : Inventory)
      → Ensures (SameRows w) ((get_item p >>= λ after. record_after after c) w)
  unfolding get_item
  record_now-SameRows p c w =
      let row = find (λ r. r.product_id == p) w.db.stock_items in
      Ensures-map (λ _ w'. Untouched w w') (SameRows w) (record_after row c w)
        (λ a w' u. u.same_reservations) (record_after-Untouched row c w)

  adjust_reserved-SameRows :
      (p : ℕ) (z : ℤ) (w : Inventory) → Ensures (SameRows w) (adjust_reserved p z w)
  unfolding adjust_reserved
  adjust_reserved-SameRows p z w = ground arith

  pub adjust_on_hand-SameRows :
      (p : ℕ) (z : ℤ) (w : Inventory) → Ensures (SameRows w) (adjust_on_hand p z w)
  unfolding adjust_on_hand
  adjust_on_hand-SameRows p z w = ground arith

  Inserted-Throughout :
      (o p q x : ℕ) (w w' : Inventory) (b : Bool)
      → may_hold o
      → Inserted o p q x w b w'
      → Throughout P tt w
      → Throughout P b w'
  Inserted-Throughout o p q x w w' false m e h = subst (Throughout P tt) (sym e) h
  Inserted-Throughout o p q x w w' true m i h =
      subst (All P) (sym i.1)
        (All-append_one P w.db.reservations (new_hold o p q x) (kept.new_kept o p q x m) h)

  insert_reservation-Throughout :
      (o p q x : ℕ) (w : Inventory)
      → may_hold o
      → Throughout P tt w
      → Ensures (Throughout P) (insert_reservation o p q x w)
  insert_reservation-Throughout o p q x w m h =
      Ensures-map (Inserted o p q x w) (Throughout P) (insert_reservation o p q x w)
        (λ b w' i. Inserted-Throughout o p q x w w' b m i h) (insert_reservation-Inserted o p q x w)

  hold_inserted-Throughout :
      (o : ℕ) (l : Line) (b : Bool) (w : Inventory)
      → Throughout P tt w
      → Ensures (Throughout P) (hold_inserted o l b w)
  hold_inserted-Throughout o l false w h = h
  hold_inserted-Throughout o l true w h =
      then-Throughout (adjust_reserved l.product_id (pos l.quantity)) _ w
        (same-Throughout (adjust_reserved l.product_id (pos l.quantity)) w
          (adjust_reserved-SameRows l.product_id (pos l.quantity) w) h)
        λ _ w'.
          same-Throughout
            (get_item l.product_id >>= λ after.
              record_after after (change_of MovementKind.reserve o l.quantity none))
            w'
            (record_now-SameRows l.product_id (change_of MovementKind.reserve o l.quantity none) w')

  hold_lines-Throughout :
      (o x : ℕ) (ls : List Line) (w : Inventory)
      → may_hold o
      → Throughout P tt w
      → Ensures (Throughout P) (hold_lines o x ls w)
  unfolding hold_lines hold_line
  hold_lines-Throughout o x [] w m h = h
  hold_lines-Throughout o x (l ∷ ls) w m h =
      then-Throughout (hold_line o x l) (λ _. hold_lines o x ls) w
        (then-Throughout (insert_reservation o l.product_id l.quantity x) (hold_inserted o l) w
          (insert_reservation-Throughout o l.product_id l.quantity x w m h)
          (hold_inserted-Throughout o l))
        (λ _ w'. hold_lines-Throughout o x ls w' m)

  count_held-Throughout :
      (ls : List Line) (w : Inventory)
      → Throughout P tt w
      → Ensures (Throughout P) (count_held ls w)
  count_held-Throughout [] w h = h
  count_held-Throughout (l ∷ ls) w h = h

  pub reserve_in-Throughout :
      (ttl now : ℕ) (i : ReserveInput) (w : Inventory)
      → may_hold i.order_id
      → Throughout P tt w
      → Ensures (Throughout P) (reserve_in ttl now i w)
  unfolding reserve_in lock_items find_held_by_order
  reserve_in-Throughout ttl now i w m h =
      bind-Ensures (SameStock w) (Throughout P)
        (lines_to_hold i.order_id _ _ (sum_lines [] i.items)) _ w
        (lines_to_hold-SameStock i.order_id _ _ (sum_lines [] i.items) w)
        λ to_hold w₁ e.
          then-Throughout (hold_lines i.order_id (now + ttl * 1000) to_hold) _ w₁
            (hold_lines-Throughout i.order_id (now + ttl * 1000) to_hold w₁ m
              (subst (All P) (sym e.1) h))
            (λ _ w₂ h₂.
              then-Throughout (count_held to_hold) _ w₂ (count_held-Throughout to_hold w₂ h₂)
                (λ _ w₃ h₃. h₃))

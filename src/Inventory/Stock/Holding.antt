-- ===== src/Inventory/Stock/Holding.antt =====
-- `reserve` and `receive` keep the database consistent.
use ecommerce_orderflow.Prelude.{
  ℕ, ◌+◌, ◌≤◌, ◌<◌, ◌≡◌, refl, sym, ap, ◌∙◌, subst, List, [], ◌∷◌, ◌++◌, map, Option, none, some,
  Bool, true, false, arith, All, any, ◌==◌, All-map,
}
use ecommerce_orderflow.Runtime.{pure}
use ecommerce_orderflow.Runtime.Laws.{Ensures, bind-Ensures}
use ecommerce_orderflow.Inventory.Tables.{StockItemRow, ReservationRow, held, Db, Inventory}
use ecommerce_orderflow.Inventory.Repository.Rows.{int4_max}
use ecommerce_orderflow.Inventory.Repository.{has_item, insert_reservation}
use ecommerce_orderflow.Inventory.Service.Record.{Change, record_and_evaluate, record_after}
use ecommerce_orderflow.Inventory.Stock.Frame.{Untouched, record_and_evaluate-Untouched}
use ecommerce_orderflow.Inventory.Stock.Consistency.{held_of, held_total, IsKnown, IsConsistent}
use ecommerce_orderflow.Inventory.Stock.Updates.{raise}

-- Consistency reads the rows of stock and the reservations alone.
pub same-IsConsistent :
    (d d' : Db)
    → d'.stock_items ≡ d.stock_items
    → d'.reservations ≡ d.reservations
    → IsConsistent d
    → IsConsistent d'
same-IsConsistent d d' e f c = record {
  counted = rw (e, f) c.counted;
  stocked = rw e c.stocked;
  known = subst (All (IsKnown d')) (sym f) (
      All-map (IsKnown d) (IsKnown d')
        (λ v k. record {
          positive = k.positive;
          quantity_fits = k.quantity_fits;
          item_known = ap (any (λ r. r.product_id == v.product_id)) e ∙ k.item_known;
        })
        d.reservations c.known);
}

pub record_after-Untouched :
    (found : Option StockItemRow) (c : Change) (w : Inventory)
    → Ensures (λ _ w'. Untouched w w') (record_after found c w)
record_after-Untouched none c w = record {
  same_items = refl;
  same_reservations = refl;
  same_receipts = refl;
  same_faults = refl;
}
record_after-Untouched (some row) c w =
    bind-Ensures (λ _ w'. Untouched w w') (λ _ w'. Untouched w w') (record_and_evaluate row c)
      (λ counts. pure tt) w (record_and_evaluate-Untouched row c w) (λ a w' u. u)

abbrev pub new_hold : ℕ → ℕ → ℕ → ℕ → ReservationRow
new_hold o p q expires_at = record {
  order_id = o;
  product_id = p;
  quantity = q;
  status = held;
  expires_at = some expires_at;
}

-- What an insertion that ran did.
abbrev pub Inserted : ℕ → ℕ → ℕ → ℕ → Inventory → Bool → Inventory → Type 0
Inserted o p q x w false w' = w' ≡ w
Inserted o p q x w true w' =
    (w'.db.stock_items ≡ w.db.stock_items)
    × (w'.db.reservations ≡ w.db.reservations ++ new_hold o p q x ∷ [])
    × (has_item p w.db ≡ true)
    × (0 < q)
    × (q ≤ int4_max)

pub insert_reservation-Inserted :
    (o p q x : ℕ) (w : Inventory) → Ensures (Inserted o p q x w) (insert_reservation o p q x w)
unfolding insert_reservation
insert_reservation-Inserted o p q x w = ground arith

held_total-append :
    (p : ℕ) (vs : List ReservationRow) (v : ReservationRow)
    → held_total p (vs ++ v ∷ []) ≡ held_total p vs + held_of p v
held_total-append p [] v = omega arith
held_total-append p (u ∷ us) v = omega (arith, held_total-append p us v)

pub counted-raise :
    (o p q x : ℕ) (vs : List ReservationRow) (items : List StockItemRow)
    → All (λ r. r.reserved ≡ held_total r.product_id vs) items
    → All
        (λ r. r.reserved ≡ held_total r.product_id (vs ++ new_hold o p q x ∷ []))
        (map (raise p q) items)
counted-raise o p q x vs [] h = tt
counted-raise o p q x vs (r ∷ rs) h = (
  ground (arith, h.0, held_total-append r.product_id vs (new_hold o p q x)),
  counted-raise o p q x vs rs h.1,
)

pub All-append_one :
    (P : ReservationRow → Type 0) (vs : List ReservationRow) (v : ReservationRow)
    → All P vs
    → P v
    → All P (vs ++ v ∷ [])
All-append_one P [] v h k = (k, tt)
All-append_one P (u ∷ us) v h k = (h.0, All-append_one P us v h.1 k)

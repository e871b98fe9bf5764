-- ===== src/Inventory/Stock/Settled.antt =====
-- The reservations of an order before and after they leave HELD.
use ecommerce_orderflow.Prelude.{
  ℕ, ◌+◌, ◌≤◌, ◌≡◌, refl, List, [], ◌∷◌, map, false, arith, All, filter, sort_by, sum_by-sort_by,
  All-filter, All-sort_by, All-map, if◌then◌else◌, any, ◌==◌, ap, ◌∙◌, sym, subst, length,
  length-sort_by,
}
use ecommerce_orderflow.Inventory.Tables.{
  StockItemRow, ReservationRow, ReservationStatus, released, committed, is_held, Db,
}
use ecommerce_orderflow.Inventory.Repository.Rows.{int4_max}
use ecommerce_orderflow.Inventory.Repository.{holds, has_item}
use ecommerce_orderflow.Inventory.Stock.Consistency.{held_total, IsStocked, IsKnown, IsConsistent}
use ecommerce_orderflow.Inventory.Stock.Updates.{any-map}
use ecommerce_orderflow.Inventory.Stock.Releasing.{share, taken, Covers, lower_all}
use ecommerce_orderflow.Inventory.Stock.Committing.{settle_all}

-- The rows that `findHeldByOrder` returns.
abbrev pub found_for : ℕ → List ReservationRow → List ReservationRow
found_for o vs = sort_by (λ v. v.product_id) (filter (holds o) vs)

-- The rows after `setReservationStatus`.
abbrev pub marked : ℕ → ReservationStatus → List ReservationRow → List ReservationRow
marked o st vs = map (λ v. if holds o v then record v { status = st } else v) vs

-- With nothing held, marking changes nothing.
marked_unheld :
    (o : ℕ) (st : ReservationStatus) (vs : List ReservationRow)
    → length (filter (holds o) vs) ≡ 0
    → marked o st vs ≡ vs
marked_unheld o st [] h = refl
marked_unheld o st (v ∷ vs) h = ground (arith, marked_unheld o st vs)

pub marked_none_found :
    (o : ℕ) (st : ReservationStatus) (vs : List ReservationRow)
    → found_for o vs ≡ []
    → marked o st vs ≡ vs
marked_none_found o st vs e = marked_unheld o st vs (
    omega (
      arith,
      ap length e,
      length-sort_by (λ (v : ReservationRow). v.product_id) (filter (holds o) vs),
    ))

-- Once marked, nothing is held for the order.
pub found_for-marked :
    (o : ℕ) (st : ReservationStatus) (vs : List ReservationRow)
    → is_held st ≡ false
    → found_for o (marked o st vs) ≡ []
found_for-marked o st [] h = refl
found_for-marked o st (v ∷ vs) h = ground (arith, found_for-marked o st vs h)

-- What the order held of a product leaves the total.
held_total-marked :
    (o : ℕ) (st : ReservationStatus) (r : StockItemRow) (vs : List ReservationRow)
    → is_held st ≡ false
    → held_total r.product_id (marked o st vs) + taken (filter (holds o) vs) r
      ≡ held_total r.product_id vs
held_total-marked o st r [] h = refl
held_total-marked o st r (v ∷ vs) h = ground (arith, held_total-marked o st r vs h)

pub taken-found_for :
    (o : ℕ) (r : StockItemRow) (vs : List ReservationRow)
    → taken (found_for o vs) r ≡ taken (filter (holds o) vs) r
taken-found_for o r vs = sum_by-sort_by (λ v. share v r) (λ v. v.product_id) (filter (holds o) vs)

held_total-found_for :
    (o : ℕ) (st : ReservationStatus) (r : StockItemRow) (vs : List ReservationRow)
    → is_held st ≡ false
    → held_total r.product_id (marked o st vs) + taken (found_for o vs) r
      ≡ held_total r.product_id vs
held_total-found_for o st r vs h =
    omega (arith, held_total-marked o st r vs h, taken-found_for o r vs)

pub found_for-Covers :
    (o : ℕ) (vs : List ReservationRow) (items : List StockItemRow)
    → All (λ r. r.reserved ≡ held_total r.product_id vs) items
    → All IsStocked items
    → All (Covers (found_for o vs)) items
found_for-Covers o vs [] c s = tt
found_for-Covers o vs (r ∷ rs) c s = (
  (omega (arith, c.0, held_total-found_for o released r vs refl), s.0),
  found_for-Covers o vs rs c.1 s.1,
)

pub found_for-fits :
    (o : ℕ) (d : Db)
    → IsConsistent d
    → All (λ v. v.quantity ≤ int4_max) (found_for o d.reservations)
found_for-fits o d c =
    All-sort_by (λ v. v.quantity ≤ int4_max) (λ v. v.product_id) (filter (holds o) d.reservations)
      (All-filter (λ v. v.quantity ≤ int4_max) (holds o) d.reservations
        (All-map (IsKnown d) (λ v. v.quantity ≤ int4_max) (λ v k. k.quantity_fits) d.reservations
          c.known))

-- Either loop's effect on the rows, with the marked reservations, is consistent again.
module _ (o : ℕ) (st : ReservationStatus) (off : is_held st ≡ false)
    (vs : List ReservationRow) where
  counted-lower_all :
      (items : List StockItemRow)
      → All (λ r. r.reserved ≡ held_total r.product_id vs) items
      → All
          (λ r. r.reserved ≡ held_total r.product_id (marked o st vs))
          (map (lower_all (found_for o vs)) items)
  counted-lower_all [] c = tt
  counted-lower_all (r ∷ rs) c =
      (omega (arith, c.0, held_total-found_for o st r vs off), counted-lower_all rs c.1)

  counted-settle_all :
      (items : List StockItemRow)
      → All (λ r. r.reserved ≡ held_total r.product_id vs) items
      → All
          (λ r. r.reserved ≡ held_total r.product_id (marked o st vs))
          (map (settle_all (found_for o vs)) items)
  counted-settle_all [] c = tt
  counted-settle_all (r ∷ rs) c =
      (omega (arith, c.0, held_total-found_for o st r vs off), counted-settle_all rs c.1)

IsStocked-lower_all :
    (vs : List ReservationRow) (items : List StockItemRow)
    → All IsStocked items
    → All IsStocked (map (lower_all vs) items)
IsStocked-lower_all vs [] h = tt
IsStocked-lower_all vs (r ∷ rs) h = (ground (arith, h.0), IsStocked-lower_all vs rs h.1)

IsStocked-settle_all :
    (vs : List ReservationRow) (items : List StockItemRow)
    → All (Covers vs) items
    → All IsStocked (map (settle_all vs) items)
IsStocked-settle_all vs [] h = tt
IsStocked-settle_all vs (r ∷ rs) h = (ground (arith, h.0), IsStocked-settle_all vs rs h.1)

IsKnown-marked :
    (o : ℕ) (st : ReservationStatus) (d d' : Db) (vs : List ReservationRow)
    → ((p : ℕ) → has_item p d' ≡ has_item p d)
    → All (IsKnown d) vs
    → All (IsKnown d') (marked o st vs)
IsKnown-marked o st d d' [] e h = tt
IsKnown-marked o st d d' (v ∷ vs) e h =
    (ground (arith, e v.product_id, h.0), IsKnown-marked o st d d' vs e h.1)

pub released-IsConsistent :
    (o : ℕ) (d d' : Db)
    → IsConsistent d
    → d'.stock_items ≡ map (lower_all (found_for o d.reservations)) d.stock_items
    → d'.reservations ≡ marked o released d.reservations
    → IsConsistent d'
released-IsConsistent o d d' c e f = record {
  counted = rw (e, f) (counted-lower_all o released refl d.reservations d.stock_items c.counted);
  stocked = rw e (IsStocked-lower_all (found_for o d.reservations) d.stock_items c.stocked);
  known = subst (All (IsKnown d')) (sym f) (
      IsKnown-marked o released d d' d.reservations
        (λ p. ap (any (λ r. r.product_id == p)) e ∙ any-map p _ d.stock_items (λ r. refl)) c.known);
}

pub committed-IsConsistent :
    (o : ℕ) (d d' : Db)
    → IsConsistent d
    → d'.stock_items ≡ map (settle_all (found_for o d.reservations)) d.stock_items
    → d'.reservations ≡ marked o committed d.reservations
    → IsConsistent d'
committed-IsConsistent o d d' c e f = record {
  counted = rw (e, f) (counted-settle_all o committed refl d.reservations d.stock_items c.counted);
  stocked = rw e (
      IsStocked-settle_all (found_for o d.reservations) d.stock_items
        (found_for-Covers o d.reservations d.stock_items c.counted c.stocked));
  known = subst (All (IsKnown d')) (sym f) (
      IsKnown-marked o committed d d' d.reservations
        (λ p. ap (any (λ r. r.product_id == p)) e ∙ any-map p _ d.stock_items (λ r. refl)) c.known);
}

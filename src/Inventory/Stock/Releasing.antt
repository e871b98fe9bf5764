-- ===== src/Inventory/Stock/Releasing.antt =====
-- The loop of `releaseIn`: it never throws, and lowers `reserved` by what the rows hold.
use ecommerce_orderflow.Prelude.{
  ℕ, ◌-◌, ◌≤◌, ◌≡◌, refl, sym, String, List, [], ◌∷◌, map, some, inl, inr, arith, neg_ℕ, All, find,
  sum_by, ◌==◌, Option-cases,
}
use ecommerce_orderflow.Runtime.{ok, ◌>>=◌}
use ecommerce_orderflow.Runtime.Laws.{Ensures-ok}
use ecommerce_orderflow.Inventory.Tables.{StockItemRow, ReservationRow, MovementKind, Inventory}
use ecommerce_orderflow.Inventory.Repository.Rows.{int4_max}
use ecommerce_orderflow.Inventory.Repository.{get_item, adjust_reserved}
use ecommerce_orderflow.Inventory.Service.Record.{
  Change, change_of, counts_of, record_and_evaluate, record_after,
}
use ecommerce_orderflow.Inventory.Service.Settle.{release_hold, release_holds}
use ecommerce_orderflow.Inventory.Stock.Frame.{
  Changed-trans, Untouched, Changed, record_and_evaluate-Untouched,
}
use ecommerce_orderflow.Inventory.Stock.Consistency.{IsStocked}
use ecommerce_orderflow.Inventory.Stock.Recording.{record_and_evaluate-ok, Zeroed}
use ecommerce_orderflow.Inventory.Stock.Updates.{part, lower, update-lower, find-any, find-All}

-- The audit after an update: it returns, and touches no stock.
pub recorded :
    (p : ℕ) (c : Change) (w : Inventory)
    → All IsStocked w.db.stock_items
    → Zeroed c
    → (w' : Inventory) × ((get_item p >>= λ after. record_after after c) w ≡ (ok tt, w'))
      × Untouched w w'
unfolding get_item
recorded p c w h z = elim (Option-cases (find (λ r. r.product_id == p) w.db.stock_items)) [
  | inl e ↦ (
    w,
    rw e,
    record {
      same_items = refl;
      same_reservations = refl;
      same_receipts = refl;
      same_faults = refl;
    },
  )
  | inr (row, e) ↦
      let (k, known) = find-any p w.db.stock_items row e in
      let returns =
        record_and_evaluate-ok row c w (find-All p IsStocked w.db.stock_items row h e) z
          (rw k known) in
      (
        (record_and_evaluate row c w).1,
        rw e (rw returns),
        Ensures-ok (λ _ w'. Untouched w w') (record_and_evaluate row c w) (counts_of row) returns
            (record_and_evaluate-Untouched row c w),
      )
]

abbrev pub share : ReservationRow → StockItemRow → ℕ
share v r = part v.product_id v.quantity r

abbrev pub taken : List ReservationRow → StockItemRow → ℕ
taken vs r = sum_by (λ v. share v r) vs

abbrev pub lower_all : List ReservationRow → StockItemRow → StockItemRow
lower_all vs r = record r { reserved = r.reserved - taken vs r }

-- What the loop needs of a row: enough is reserved.
abbrev pub Covers : List ReservationRow → StockItemRow → Type 0
Covers vs r = (taken vs r ≤ r.reserved) × IsStocked r

pub Covers-head :
    (v : ReservationRow) (vs : List ReservationRow) (items : List StockItemRow)
    → All (Covers (v ∷ vs)) items
    → All (λ r. (share v r ≤ r.reserved) × IsStocked r) items
Covers-head v vs [] h = tt
Covers-head v vs (r ∷ rs) h = ((omega (arith, h.0.0), h.0.1), Covers-head v vs rs h.1)

Covers-lower :
    (v : ReservationRow) (vs : List ReservationRow) (items : List StockItemRow)
    → All (Covers (v ∷ vs)) items
    → All (Covers vs) (map (lower v.product_id v.quantity) items)
Covers-lower v vs [] h = tt
Covers-lower v vs (r ∷ rs) h = (ground (arith, h.0), Covers-lower v vs rs h.1)

lower_all-nil : (items : List StockItemRow) → map (lower_all []) items ≡ items
lower_all-nil [] = refl
lower_all-nil (r ∷ rs) = ground (arith, lower_all-nil rs)

lower_all-cons :
    (v : ReservationRow) (vs : List ReservationRow) (items : List StockItemRow)
    → map (lower_all vs) (map (lower v.product_id v.quantity) items)
      ≡ map (lower_all (v ∷ vs)) items
lower_all-cons v vs [] = refl
lower_all-cons v vs (r ∷ rs) = ground (arith, lower_all-cons v vs rs)

pub Covers-IsStocked :
    (vs : List ReservationRow) (items : List StockItemRow)
    → All (Covers vs) items
    → All IsStocked items
Covers-IsStocked vs [] h = tt
Covers-IsStocked vs (r ∷ rs) h = (h.0.1, Covers-IsStocked vs rs h.1)

-- The database with other stock rows.
abbrev pub with_items : Inventory → List StockItemRow → Inventory
with_items w items = record w { db = record w.db { stock_items = items } }

pub adjust_reserved-lower :
    (v : ReservationRow) (w : Inventory)
    → All (λ r. (share v r ≤ r.reserved) × IsStocked r) w.db.stock_items
    → adjust_reserved v.product_id (neg_ℕ v.quantity) w
      ≡ (ok tt, with_items w (map (lower v.product_id v.quantity) w.db.stock_items))
unfolding adjust_reserved
adjust_reserved-lower v w h = rw (update-lower v.product_id v.quantity w.db.stock_items h)

release_hold-Changed :
    (o : ℕ) (reason : String) (v : ReservationRow) (vs : List ReservationRow) (w : Inventory)
    → v.quantity ≤ int4_max
    → All (Covers (v ∷ vs)) w.db.stock_items
    → (w' : Inventory) × (release_hold o reason v w ≡ (ok tt, w'))
      × Changed (lower v.product_id v.quantity) w w'
release_hold-Changed o reason v vs w q h =
    let lowered = with_items w (map (lower v.product_id v.quantity) w.db.stock_items) in
    let (w', e, u) =
      recorded v.product_id (change_of MovementKind.release o v.quantity (some reason)) lowered
        (Covers-IsStocked vs lowered.db.stock_items (Covers-lower v vs w.db.stock_items h))
        (refl, refl, q) in
    (
      w',
      unfold release_hold in rw (adjust_reserved-lower v w (Covers-head v vs w.db.stock_items h)) e,
      record {
        items_changed = u.same_items;
        reservations_kept = u.same_reservations;
        receipts_kept = u.same_receipts;
        faults_kept = u.same_faults;
      },
    )

release_holds-cons :
    (o : ℕ) (reason : String) (v : ReservationRow) (vs : List ReservationRow) (w w₁ w₂ : Inventory)
    → release_hold o reason v w ≡ (ok tt, w₁)
    → release_holds o reason vs w₁ ≡ (ok tt, w₂)
    → release_holds o reason (v ∷ vs) w ≡ (ok tt, w₂)
unfolding release_holds
release_holds-cons o reason v vs w w₁ w₂ e₁ e₂ = rw (e₁, e₂)

-- The loop returns, and every row has given up what the reservations hold of it.
pub release_holds-Changed :
    (o : ℕ) (reason : String) (vs : List ReservationRow) (w : Inventory)
    → All (λ v. v.quantity ≤ int4_max) vs
    → All (Covers vs) w.db.stock_items
    → (w' : Inventory) × (release_holds o reason vs w ≡ (ok tt, w')) × Changed (lower_all vs) w w'
release_holds-Changed o reason [] w q h = (
  w,
  unfold release_holds in refl,
  record {
    items_changed = sym (lower_all-nil w.db.stock_items);
    reservations_kept = refl;
    receipts_kept = refl;
    faults_kept = refl;
  },
)
release_holds-Changed o reason (v ∷ vs) w q h =
    let (w₁, e₁, c₁) = release_hold-Changed o reason v vs w q.0 h in
    let covers : All (Covers vs) w₁.db.stock_items =
      rw c₁.items_changed (Covers-lower v vs w.db.stock_items h) in
    let (w₂, e₂, c₂) = release_holds-Changed o reason vs w₁ q.1 covers in
    (
      w₂,
      release_holds-cons o reason v vs w w₁ w₂ e₁ e₂,
      Changed-trans c₁ c₂ (lower_all-cons v vs w.db.stock_items),
    )

-- ===== src/Inventory/Stock/Committing.antt =====
-- The loop of `commitIn`: it never throws, and lowers `reserved` and `on_hand` by what the rows hold.
use ecommerce_orderflow.Prelude.{
  ℕ, ◌+◌, ◌-◌, ◌≤◌, ◌≡◌, refl, sym, List, [], ◌∷◌, map, none, arith, neg_ℕ, All,
}
use ecommerce_orderflow.Runtime.{ok}
use ecommerce_orderflow.Inventory.Tables.{StockItemRow, ReservationRow, MovementKind, Inventory}
use ecommerce_orderflow.Inventory.Repository.Rows.{int4_max}
use ecommerce_orderflow.Inventory.Repository.{adjust_on_hand}
use ecommerce_orderflow.Inventory.Service.Record.{change_of}
use ecommerce_orderflow.Inventory.Service.Settle.{commit_hold, commit_holds}
use ecommerce_orderflow.Inventory.Stock.Frame.{Changed, Changed-trans}
use ecommerce_orderflow.Inventory.Stock.Consistency.{IsStocked}
use ecommerce_orderflow.Inventory.Stock.Updates.{part, lower, ship, update-ship}
use ecommerce_orderflow.Inventory.Stock.Releasing.{
  share, taken, Covers, Covers-head, Covers-IsStocked, with_items, adjust_reserved-lower, recorded,
}

-- A row once the goods of a reservation, or of several, have left.
abbrev pub settle : ReservationRow → StockItemRow → StockItemRow
settle v r = record r { reserved = r.reserved - share v r; on_hand = r.on_hand - share v r }

abbrev pub settle_all : List ReservationRow → StockItemRow → StockItemRow
settle_all vs r = record r { reserved = r.reserved - taken vs r; on_hand = r.on_hand - taken vs r }

ship-lower :
    (v : ReservationRow) (items : List StockItemRow)
    → map (ship v.product_id v.quantity) (map (lower v.product_id v.quantity) items)
      ≡ map (settle v) items
ship-lower v [] = refl
ship-lower v (r ∷ rs) = ground (arith, ship-lower v rs)

lowered_room :
    (v : ReservationRow) (vs : List ReservationRow) (items : List StockItemRow)
    → All (Covers (v ∷ vs)) items
    → All
        (λ r. (r.reserved + part v.product_id v.quantity r ≤ r.on_hand) × IsStocked r)
        (map (lower v.product_id v.quantity) items)
lowered_room v vs [] h = tt
lowered_room v vs (r ∷ rs) h = (ground (arith, h.0), lowered_room v vs rs h.1)

Covers-settle :
    (v : ReservationRow) (vs : List ReservationRow) (items : List StockItemRow)
    → All (Covers (v ∷ vs)) items
    → All (Covers vs) (map (settle v) items)
Covers-settle v vs [] h = tt
Covers-settle v vs (r ∷ rs) h = (ground (arith, h.0), Covers-settle v vs rs h.1)

settle_all-nil : (items : List StockItemRow) → map (settle_all []) items ≡ items
settle_all-nil [] = refl
settle_all-nil (r ∷ rs) = ground (arith, settle_all-nil rs)

settle_all-cons :
    (v : ReservationRow) (vs : List ReservationRow) (items : List StockItemRow)
    → map (settle_all vs) (map (settle v) items) ≡ map (settle_all (v ∷ vs)) items
settle_all-cons v vs [] = refl
settle_all-cons v vs (r ∷ rs) = ground (arith, settle_all-cons v vs rs)

adjust_on_hand-ship :
    (v : ReservationRow) (vs : List ReservationRow) (w : Inventory)
    → All (Covers (v ∷ vs)) w.db.stock_items
    → adjust_on_hand v.product_id
        (neg_ℕ v.quantity)
        (with_items w (map (lower v.product_id v.quantity) w.db.stock_items))
      ≡ (ok tt, with_items w (map (settle v) w.db.stock_items))
unfolding adjust_on_hand
adjust_on_hand-ship v vs w h = rw (
  update-ship v.product_id v.quantity (map (lower v.product_id v.quantity) w.db.stock_items)
      (lowered_room v vs w.db.stock_items h),
  ship-lower v w.db.stock_items,
)

commit_hold-Changed :
    (o : ℕ) (v : ReservationRow) (vs : List ReservationRow) (w : Inventory)
    → v.quantity ≤ int4_max
    → All (Covers (v ∷ vs)) w.db.stock_items
    → (w' : Inventory) × (commit_hold o v w ≡ (ok tt, w')) × Changed (settle v) w w'
commit_hold-Changed o v vs w q h =
    let settled = with_items w (map (settle v) w.db.stock_items) in
    let (w', e, u) =
      recorded v.product_id (change_of MovementKind.commit o v.quantity none) settled
        (Covers-IsStocked vs settled.db.stock_items (Covers-settle v vs w.db.stock_items h))
        (refl, refl, q) in
    (
      w',
      unfold commit_hold in
          rw
            (
              adjust_reserved-lower v w (Covers-head v vs w.db.stock_items h),
              adjust_on_hand-ship v vs w h,
            )
            e,
      record {
        items_changed = u.same_items;
        reservations_kept = u.same_reservations;
        receipts_kept = u.same_receipts;
        faults_kept = u.same_faults;
      },
    )

commit_holds-cons :
    (o : ℕ) (v : ReservationRow) (vs : List ReservationRow) (w w₁ w₂ : Inventory)
    → commit_hold o v w ≡ (ok tt, w₁)
    → commit_holds o vs w₁ ≡ (ok tt, w₂)
    → commit_holds o (v ∷ vs) w ≡ (ok tt, w₂)
unfolding commit_holds
commit_holds-cons o v vs w w₁ w₂ e₁ e₂ = rw (e₁, e₂)

-- The loop returns, and every row has given up what the reservations hold of it.
pub commit_holds-Changed :
    (o : ℕ) (vs : List ReservationRow) (w : Inventory)
    → All (λ v. v.quantity ≤ int4_max) vs
    → All (Covers vs) w.db.stock_items
    → (w' : Inventory) × (commit_holds o vs w ≡ (ok tt, w')) × Changed (settle_all vs) w w'
commit_holds-Changed o [] w q h = (
  w,
  unfold commit_holds in refl,
  record {
    items_changed = sym (settle_all-nil w.db.stock_items);
    reservations_kept = refl;
    receipts_kept = refl;
    faults_kept = refl;
  },
)
commit_holds-Changed o (v ∷ vs) w q h =
    let (w₁, e₁, c₁) = commit_hold-Changed o v vs w q.0 h in
    let covers : All (Covers vs) w₁.db.stock_items =
      rw c₁.items_changed (Covers-settle v vs w.db.stock_items h) in
    let (w₂, e₂, c₂) = commit_holds-Changed o vs w₁ q.1 covers in
    (
      w₂,
      commit_holds-cons o v vs w w₁ w₂ e₁ e₂,
      Changed-trans c₁ c₂ (settle_all-cons v vs w.db.stock_items),
    )

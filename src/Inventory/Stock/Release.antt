-- ===== src/Inventory/Stock/Release.antt =====
-- `releaseIn` and `commitIn` of apps/inventory-service/src/inventory/inventory.service.ts.
use ecommerce_orderflow.Prelude.{ℕ, ◌≡◌, refl, sym, ap, ◌∙◌, String, List, [], ◌∷◌, map, length}
use ecommerce_orderflow.Runtime.{ok}
use ecommerce_orderflow.Inventory.Tables.{
  StockItemRow, ReservationRow, ReservationStatus, released, committed, Inventory,
}
use ecommerce_orderflow.Inventory.Repository.{find_held_by_order, set_reservation_status}
use ecommerce_orderflow.Inventory.Service.Settle.{
  mark_released, release_in, mark_committed, commit_in,
}
use ecommerce_orderflow.Inventory.Stock.Consistency.{IsConsistent}
use ecommerce_orderflow.Inventory.Stock.Releasing.{lower_all, release_holds-Changed}
use ecommerce_orderflow.Inventory.Stock.Committing.{settle_all, commit_holds-Changed}
use ecommerce_orderflow.Inventory.Stock.Settled.{
  found_for, marked, marked_none_found, found_for-Covers, found_for-fits, released-IsConsistent,
  committed-IsConsistent,
}

-- The call returned the number of holds; the rows of stock have changed by `f`, the holds of the
-- order have the new status, and nothing else of the stock, the reservations or the receipts has
-- changed. The database is consistent again.
pub record Settles (o : ℕ) (st : ReservationStatus) (f : StockItemRow → StockItemRow)
    (w w' : Inventory) : Type 0 where
  pub items_settled : w'.db.stock_items ≡ map f w.db.stock_items
  pub holds_marked : w'.db.reservations ≡ marked o st w.db.reservations
  pub receipts_kept : w'.db.processed_events ≡ w.db.processed_events
  pub faults_kept : w'.faults ≡ w.faults
  pub consistent : IsConsistent w'.db

-- What marking does to the state that the loop left.
abbrev Marks : ℕ → ReservationStatus → Inventory → Inventory → Type 0
Marks o st w w' =
    (w'.db.stock_items ≡ w.db.stock_items)
    × (w'.db.reservations ≡ marked o st w.db.reservations)
    × (w'.db.processed_events ≡ w.db.processed_events)
    × (w'.faults ≡ w.faults)

mark_released-Marks :
    (o : ℕ) (vs : List ReservationRow) (w : Inventory)
    → found_for o w.db.reservations ≡ vs
    → (w' : Inventory) × (mark_released o vs w ≡ (ok tt, w')) × Marks o released w w'
unfolding set_reservation_status
mark_released-Marks o [] w e =
    (w, refl, (refl, sym (marked_none_found o released w.db.reservations e), refl, refl))
mark_released-Marks o (v ∷ vs) w e = (_, refl, (refl, refl, refl, refl))

mark_committed-Marks :
    (o : ℕ) (vs : List ReservationRow) (w : Inventory)
    → found_for o w.db.reservations ≡ vs
    → (w' : Inventory) × (mark_committed o vs w ≡ (ok tt, w')) × Marks o committed w w'
unfolding set_reservation_status
mark_committed-Marks o [] w e =
    (w, refl, (refl, sym (marked_none_found o committed w.db.reservations e), refl, refl))
mark_committed-Marks o (v ∷ vs) w e = (_, refl, (refl, refl, refl, refl))

-- On a consistent database releaseIn never throws; it returns the number of holds of the order, lowers each
-- product's reserved by what the order held of it, marks the holds RELEASED, changes no other reservation
-- and no receipt, and keeps the database consistent. (Consistent is that each product's reserved is the sum
-- of its HELD quantities and at most on_hand, that every reservation has a positive quantity and a known
-- product, and that these quantities, on_hand, twice the reorder level and the reorder quantity fit an
-- integer column.)
pub release_in-Settles :
    (o : ℕ) (reason : String) (w : Inventory)
    → IsConsistent w.db
    → (w' : Inventory) × (release_in o reason w ≡ (ok (length (found_for o w.db.reservations)), w'))
      × Settles o released (lower_all (found_for o w.db.reservations)) w w'
release_in-Settles o reason w c =
    let found = found_for o w.db.reservations in
    let (w₁, e₁, c₁) =
      release_holds-Changed o reason found w (found_for-fits o w.db c)
        (found_for-Covers o w.db.reservations w.db.stock_items c.counted c.stocked) in
    let (w₂, e₂, m) = mark_released-Marks o found w₁ (ap (found_for o) c₁.reservations_kept) in
    let items = m.0 ∙ c₁.items_changed in
    let rows = m.1 ∙ ap (marked o released) c₁.reservations_kept in
    (
      w₂,
      unfold release_in find_held_by_order in rw (e₁, e₂),
      record {
        items_settled = items;
        holds_marked = rows;
        receipts_kept = m.2 ∙ c₁.receipts_kept;
        faults_kept = m.3 ∙ c₁.faults_kept;
        consistent = released-IsConsistent o w.db w₂.db c items rows;
      },
    )

-- On a consistent database commitIn never throws; it returns the number of holds of the order, lowers each
-- product's reserved and on_hand by what the order held of it, marks the holds COMMITTED, changes no other
-- reservation and no receipt, and keeps the database consistent. (Consistent is that each product's
-- reserved is the sum of its HELD quantities and at most on_hand, that every reservation has a positive
-- quantity and a known product, and that these quantities, on_hand, twice the reorder level and the reorder
-- quantity fit an integer column.)
pub commit_in-Settles :
    (o : ℕ) (w : Inventory)
    → IsConsistent w.db
    → (w' : Inventory) × (commit_in o w ≡ (ok (length (found_for o w.db.reservations)), w'))
      × Settles o committed (settle_all (found_for o w.db.reservations)) w w'
commit_in-Settles o w c =
    let found = found_for o w.db.reservations in
    let (w₁, e₁, c₁) =
      commit_holds-Changed o found w (found_for-fits o w.db c)
        (found_for-Covers o w.db.reservations w.db.stock_items c.counted c.stocked) in
    let (w₂, e₂, m) = mark_committed-Marks o found w₁ (ap (found_for o) c₁.reservations_kept) in
    let items = m.0 ∙ c₁.items_changed in
    let rows = m.1 ∙ ap (marked o committed) c₁.reservations_kept in
    (
      w₂,
      unfold commit_in find_held_by_order in rw (e₁, e₂),
      record {
        items_settled = items;
        holds_marked = rows;
        receipts_kept = m.2 ∙ c₁.receipts_kept;
        faults_kept = m.3 ∙ c₁.faults_kept;
        consistent = committed-IsConsistent o w.db w₂.db c items rows;
      },
    )

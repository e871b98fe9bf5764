-- ===== src/Inventory/Gauges/Scraped.antt =====
-- What a scrape of apps/inventory-service/src/observability/metrics.controller.ts shows of the database.
use ecommerce_orderflow.Prelude.{
  ℕ, ◌-◌, ◌≤◌, String, ◌≡◌, refl, sym, ◌∙◌, subst, List, [], ◌∷◌, some, All, filter, length, pos,
  ◌-ℤ◌, sort_by, arith,
}
use ecommerce_orderflow.Runtime.{
  Result, ok, err, healthy, next_fault, later_faults, with_transaction,
}
use ecommerce_orderflow.Runtime.Laws.{Ensures, with_transaction-Ensures}
use ecommerce_orderflow.Inventory.Errors.{Thrown, other_error}
use ecommerce_orderflow.Inventory.Tables.{StockItemRow, is_open, Db, Inventory}
use ecommerce_orderflow.Inventory.Repository.{transaction, count_open_alerts}
use ecommerce_orderflow.Inventory.Stock.Consistency.{held_total, IsStocked, IsConsistent}
use ecommerce_orderflow.Inventory.Gauges.{
  Gauges, set_item, set_items, all_items, set_alerts, show_items, scrape,
}
use ecommerce_orderflow.Inventory.Gauges.Lookup.{value_of, fill, DistinctSkus, fill-shows}
use ecommerce_orderflow.Inventory.Gauges.Sorted.{DistinctSkus-sort_by, All-unsort}

set_items-fill :
    (is : List StockItemRow) (g : Gauges)
    → (set_items is g).on_hand ≡ fill (λ i. pos i.on_hand) is g.on_hand
unfolding set_items
set_items-fill [] g = refl
set_items-fill (i ∷ is) g = set_items-fill is (set_item i g)

set_items-fill_reserved :
    (is : List StockItemRow) (g : Gauges)
    → (set_items is g).reserved ≡ fill (λ i. pos i.reserved) is g.reserved
unfolding set_items
set_items-fill_reserved [] g = refl
set_items-fill_reserved (i ∷ is) g = set_items-fill_reserved is (set_item i g)

set_items-fill_available :
    (is : List StockItemRow) (g : Gauges)
    → (set_items is g).available ≡ fill (λ i. pos i.on_hand -ℤ pos i.reserved) is g.available
unfolding set_items
set_items-fill_available [] g = refl
set_items-fill_available (i ∷ is) g = set_items-fill_available is (set_item i g)

-- The gauges of a row.
abbrev pub IsShown : Gauges → StockItemRow → Type 0
IsShown g i =
    (value_of i.sku g.on_hand ≡ some (pos i.on_hand))
    × (value_of i.sku g.reserved ≡ some (pos i.reserved))
    × (value_of i.sku g.available ≡ some (pos i.on_hand -ℤ pos i.reserved))

All-each :
    (P Q R : StockItemRow → Type 0) (is : List StockItemRow)
    → All P is
    → All Q is
    → All R is
    → All (λ i. P i × Q i × R i) is
All-each P Q R [] h k l = tt
All-each P Q R (i ∷ is) h k l = ((h.0, k.0, l.0), All-each P Q R is h.1 k.1 l.1)

set_items-IsShown :
    (is : List StockItemRow) (g : Gauges) → DistinctSkus is → All (IsShown (set_items is g)) is
set_items-IsShown is g d =
    All-each _ _ _ is
      (subst (λ xs. All (λ i. value_of i.sku xs ≡ some (pos i.on_hand)) is)
        (sym (set_items-fill is g)) (fill-shows (λ i. pos i.on_hand) is g.on_hand d))
      (subst (λ xs. All (λ i. value_of i.sku xs ≡ some (pos i.reserved)) is)
        (sym (set_items-fill_reserved is g)) (fill-shows (λ i. pos i.reserved) is g.reserved d))
      (subst (λ xs. All (λ i. value_of i.sku xs ≡ some (pos i.on_hand -ℤ pos i.reserved)) is)
        (sym (set_items-fill_available is g))
        (fill-shows (λ i. pos i.on_hand -ℤ pos i.reserved) is g.available d))

-- What the gauges show of a row against what is held of its product.
abbrev pub IsRead : Gauges → Db → StockItemRow → Type 0
IsRead g d i =
    (value_of i.sku g.on_hand ≡ some (pos i.on_hand))
    × (value_of i.sku g.reserved ≡ some (pos (held_total i.product_id d.reservations)))
    × (value_of i.sku g.available ≡ some (pos (i.on_hand - held_total i.product_id d.reservations)))
    × (held_total i.product_id d.reservations ≤ i.on_hand)

-- What a scrape that does not throw leaves.
pub record Scrapes (w w' : Inventory) (g' : Gauges) : Type 0 where
  pub same_db : w'.db ≡ w.db
  pub alerts : g'.alerts_open ≡ length (filter (λ a. is_open a.status) w.db.stock_alerts)
  pub shown : All (IsRead g' w.db) w.db.stock_items

shown_row :
    (g : Gauges) (d : Db) (i : StockItemRow)
    → IsShown g i
    → i.reserved ≡ held_total i.product_id d.reservations
    → i.reserved ≤ i.on_hand
    → IsRead g d i
unfolding ◌-ℤ◌
shown_row g d i s e l = rw (sym e) (s.0, s.1, s.2 ∙ ground (arith, l), l)

-- What each statement of the scrape answers.
all_items-Ensures :
    (collation : String → ℕ) (w : Inventory)
    → Ensures
        (λ is w'. (is ≡ sort_by (λ r. collation r.sku) w.db.stock_items) × (w'.db ≡ w.db))
        (all_items collation w)
unfolding all_items transaction
all_items-Ensures collation w =
    with_transaction-Ensures
      (λ is w'. (is ≡ sort_by (λ r. collation r.sku) w.db.stock_items) × (w'.db ≡ w.db)) other_error
      _ w (refl, refl)

count_alerts-Ensures :
    (w : Inventory)
    → Ensures
        (λ n w'. (n ≡ length (filter (λ a. is_open a.status) w.db.stock_alerts)) × (w'.db ≡ w.db))
        (transaction count_open_alerts w)
unfolding transaction count_open_alerts
count_alerts-Ensures w =
    with_transaction-Ensures
      (λ n w'. (n ≡ length (filter (λ a. is_open a.status) w.db.stock_alerts)) × (w'.db ≡ w.db))
      other_error count_open_alerts w (refl, refl)

set_items-alerts_open :
    (is : List StockItemRow) (g : Gauges) → (set_items is g).alerts_open ≡ g.alerts_open
unfolding set_items
set_items-alerts_open [] g = refl
set_items-alerts_open (i ∷ is) g = set_items-alerts_open is (set_item i g)

-- The rows that a scrape has read, on the gauges it leaves.
shown_rows :
    (g : Gauges) (d : Db) (is : List StockItemRow)
    → All (IsShown g) is
    → All (λ r. r.reserved ≡ held_total r.product_id d.reservations) is
    → All IsStocked is
    → All (IsRead g d) is
shown_rows g d [] s c k = tt
shown_rows g d (i ∷ is) s c k = (shown_row g d i s.0 c.0 k.0.covered, shown_rows g d is s.1 c.1 k.1)

-- What `set_alerts` leaves of the gauges of the items.
IsDone : Inventory → Gauges → Result Thrown ℕ → Inventory → Type 0
IsDone w g n v = (set_alerts n g).0 ≡ ok tt → Scrapes w v (set_alerts n g).1

set_alerts-IsDone :
    (w : Inventory) (g : Gauges) (n : Result Thrown ℕ) (v : Inventory)
    → Ensures
        (λ m u. (m ≡ length (filter (λ a. is_open a.status) w.db.stock_alerts)) × (u.db ≡ w.db))
        (n, v)
    → All (IsRead g w.db) w.db.stock_items
    → IsDone w g n v
unfolding IsDone
set_alerts-IsDone w g (ok m) v h k = λ e. record { same_db = h.1; alerts = h.0; shown = k }
set_alerts-IsDone w g (err x) v h k = λ e. absurd (cc)

module _ (collation : String → ℕ) (g : Gauges) (w : Inventory) where
  set_items-IsRead :
      DistinctSkus w.db.stock_items
      → IsConsistent w.db
      → All
          (IsRead (set_items (sort_by (λ r. collation r.sku) w.db.stock_items) g) w.db)
          w.db.stock_items
  set_items-IsRead d c =
      let shown = set_items (sort_by (λ r. collation r.sku) w.db.stock_items) g in
      shown_rows shown w.db w.db.stock_items
        (All-unsort (λ r. collation r.sku) (IsShown shown) w.db.stock_items
          (set_items-IsShown (sort_by (λ r. collation r.sku) w.db.stock_items) g
            (DistinctSkus-sort_by (λ r. collation r.sku) w.db.stock_items d)))
        c.counted c.stocked

  show_items-Scrapes :
      (r : Result Thrown (List StockItemRow)) (v : Inventory)
      → Ensures
          (λ is u. (is ≡ sort_by (λ r. collation r.sku) w.db.stock_items) × (u.db ≡ w.db))
          (r, v)
      → DistinctSkus w.db.stock_items
      → IsConsistent w.db
      → (show_items r g v).0 ≡ ok tt
      → Scrapes w (show_items r g v).1.1 (show_items r g v).1.0
  unfolding IsDone
  show_items-Scrapes (err x) v h d c e = absurd (cc)
  show_items-Scrapes (ok is) v h d c e =
      set_alerts-IsDone w (set_items is g) (transaction count_open_alerts v).0
        (transaction count_open_alerts v).1
        (subst
          (λ t.
            Ensures
              (λ m u. (m ≡ length (filter (λ a. is_open a.status) t.stock_alerts)) × (u.db ≡ t))
              (transaction count_open_alerts v))
          h.1 (count_alerts-Ensures v))
        (rw h.0 (set_items-IsRead d c)) e

scrape-answers :
    (collation : String → ℕ) (g : Gauges) (w : Inventory)
    → next_fault w.faults ≡ healthy
    → next_fault (later_faults w.faults) ≡ healthy
    → (scrape collation g w).0 ≡ ok tt
unfolding scrape all_items transaction with_transaction count_open_alerts
scrape-answers collation g w f f' = rw (f, f') refl

-- When the driver fails neither of its statements, a scrape answers. It leaves the database as it was, the
-- gauge of alerts at the number of the open ones, and the gauges of each SKU at its row: on hand, what the
-- product's reservations in status `held` add up to, and their difference, which is not negative, when SKUs are
-- distinct and the database is consistent.
pub scrape-Scrapes :
    (collation : String → ℕ) (g : Gauges) (w : Inventory)
    → DistinctSkus w.db.stock_items
    → IsConsistent w.db
    → next_fault w.faults ≡ healthy
    → next_fault (later_faults w.faults) ≡ healthy
    → ((scrape collation g w).0 ≡ ok tt)
      × Scrapes w (scrape collation g w).1.1 (scrape collation g w).1.0
unfolding scrape
scrape-Scrapes collation g w d c f f' =
    let e = scrape-answers collation g w f f' in
    (
      e,
      show_items-Scrapes collation g w (all_items collation w).0 (all_items collation w).1
          (all_items-Ensures collation w) d c e,
    )

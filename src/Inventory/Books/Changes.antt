-- ===== src/Inventory/Books/Changes.antt =====
-- What a change of one product does to the books of the others, in
-- apps/inventory-service/src/inventory/inventory.service.ts.
use mathlib.Core.Option.{some_inj}
use ecommerce_orderflow.Prelude.{
  ℕ, ◌≡◌, ◌⊎◌, inl, inr, refl, sym, ap, ◌∙◌, subst, List, [], ◌∷◌, Bool, true, false, none, some,
  find, All, All-map, is_some, pos, +ℤ-pos_zero, ◌==◌, ==_iff, ==_self, arith, Bool-cases,
  Option-cases,
}
use ecommerce_orderflow.Runtime.{pure}
use ecommerce_orderflow.Runtime.Laws.{Ensures, Ensures-map, bind-Ensures}
use ecommerce_orderflow.Inventory.Rules.{alert_level_for}
use ecommerce_orderflow.Inventory.Tables.{StockItemRow, Inventory}
use ecommerce_orderflow.Inventory.Service.Record.{
  Change, movement_of, levels_of, record_and_evaluate, record_after,
}
use ecommerce_orderflow.Inventory.Service.Settle.{or_else}
use ecommerce_orderflow.Inventory.Stock.Updates.{find-any}
use ecommerce_orderflow.Inventory.Books.{
  latest, row_levels, IsBooked, names, Keyed, Books, BooksBut,
}
use ecommerce_orderflow.Inventory.Books.Recording.{latest-append, Noted, record_and_evaluate-Noted}

abbrev pub Balanced : Change → Type 0
Balanced c = (c.on_hand_delta ≡ pos 0) × (c.reserved_delta ≡ pos 0)

levels-Balanced : (row : StockItemRow) (c : Change) → Balanced c → levels_of row c ≡ row_levels row
levels-Balanced row c b = rw (b.0, b.1, +ℤ-pos_zero row.on_hand, +ℤ-pos_zero row.reserved) refl

-- The recorded row is booked.
IsBooked-now :
    (row : StockItemRow) (c : Change) (w w' : Inventory)
    → Balanced c
    → Noted row c w w'
    → IsBooked w'.db row
IsBooked-now row c w w' b n = inr (
  movement_of row c,
  ap (latest row.product_id) n.1
      ∙ latest-append row.product_id w.db.stock_movements (movement_of row c)
      ∙ rw (==_self row.product_id) refl,
  rw (b.0, +ℤ-pos_zero) refl,
  rw (b.1, +ℤ-pos_zero) refl,
  n.2 row.product_id
      ∙ rw (==_self row.product_id)
          (ap (λ ls. is_some (alert_level_for ls)) (levels-Balanced row c b)),
)

still_latest :
    (row r : StockItemRow) (c : Change) (w w' : Inventory)
    → Noted row c w w'
    → (r.product_id == row.product_id) ≡ false
    → latest r.product_id w'.db.stock_movements ≡ latest r.product_id w.db.stock_movements
still_latest row r c w w' n e =
    ap (latest r.product_id) n.1
    ∙ latest-append r.product_id w.db.stock_movements (movement_of row c)
    ∙ ground (arith, e)

-- The books of another product are as they were.
IsBooked-still :
    (row r : StockItemRow) (c : Change) (w w' : Inventory)
    → Noted row c w w'
    → (r.product_id == row.product_id) ≡ false
    → IsBooked w.db r
    → IsBooked w'.db r
IsBooked-still row r c w w' n e (inl h) = inl (still_latest row r c w w' n e ∙ h)
IsBooked-still row r c w w' n e (inr (m, h, a, b, k)) =
    inr (m, still_latest row r c w w' n e ∙ h, a, b, n.2 r.product_id ∙ rw e k)

-- The rows: the one recorded, and others.
Noted-IsBooked :
    (row : StockItemRow) (c : Change) (w w' : Inventory)
    → Balanced c
    → Noted row c w w'
    → (r : StockItemRow)
    → (r ≡ row) ⊎ (((r.product_id == row.product_id) ≡ false) × IsBooked w.db r)
    → IsBooked w'.db r
Noted-IsBooked row c w w' b n r (inl e) =
    subst (IsBooked w'.db) (sym e) (IsBooked-now row c w w' b n)
Noted-IsBooked row c w w' b n r (inr (e, h)) = IsBooked-still row r c w w' n e h

-- `product_id` names one row.
others :
    (p : ℕ) (Q : StockItemRow → Type 0) (rs : List StockItemRow)
    → names p rs ≡ false
    → All (λ r. ((r.product_id == p) ≡ true) ⊎ Q r) rs
    → All (λ r. ((r.product_id == p) ≡ false) × Q r) rs
others p Q [] n h = tt
others p Q (r ∷ rs) n (inl e, h) = absurd (ground (arith, n, e))
others p Q (r ∷ rs) n (inr q, h) = ((ground (arith, n), q), others p Q rs (ground (arith, n)) h)

unnamed :
    (Q : StockItemRow → Type 0) (r : StockItemRow) (b : Bool) → b ≡ false → (b ≡ true) ⊎ Q r → Q r
unnamed Q r b e (inl t) = absurd (cc)
unnamed Q r b e (inr q) = q

apart :
    (p : ℕ) (Q : StockItemRow → Type 0) (rs : List StockItemRow) (row : StockItemRow)
    → Keyed rs
    → find (λ r. r.product_id == p) rs ≡ some row
    → All (λ r. ((r.product_id == p) ≡ true) ⊎ Q r) rs
    → All (λ r. (r ≡ row) ⊎ (((r.product_id == row.product_id) ≡ false) × Q r)) rs
apart p Q [] row k f h = tt
apart p Q (r ∷ rs) row k f h =
    let q = (find-any p (r ∷ rs) row f).0 in
    elim (Bool-cases (r.product_id == p)) [
      | inl e ↦ (
        inl (some_inj.0 (rw e at f)),
        All-map _ _ (λ x y. inr (subst (λ n. (x.product_id == n) ≡ false) (sym q) y.0, y.1)) rs
            (others p Q rs (subst (λ n. names n rs ≡ false) ((==_iff r.product_id p).0 e) k.0) h.1),
      )
      | inr e ↦ (
        inr (
          subst (λ n. (r.product_id == n) ≡ false) (sym q) e,
          unnamed Q r (r.product_id == p) e h.0,
        ),
        apart p Q rs row k.1 (rw e at f) h.1,
      )
    ]

-- With no row of the product, every row is another one.
absent :
    (p : ℕ) (Q : StockItemRow → Type 0) (rs : List StockItemRow)
    → find (λ r. r.product_id == p) rs ≡ none
    → All (λ r. ((r.product_id == p) ≡ true) ⊎ Q r) rs
    → All (λ r. ((r.product_id == p) ≡ false) × Q r) rs
absent p Q [] f h = tt
absent p Q (r ∷ rs) f h = elim (Bool-cases (r.product_id == p)) [
  | inl e ↦ absurd (ground (arith, f, e))
  | inr e ↦ ((e, unnamed Q r (r.product_id == p) e h.0), absent p Q rs (rw e at f) h.1)
]

record_one-Books :
    (row : StockItemRow) (c : Change) (w : Inventory)
    → Balanced c
    → Keyed w.db.stock_items
    → All
        (λ r. (r ≡ row) ⊎ (((r.product_id == row.product_id) ≡ false) × IsBooked w.db r))
        w.db.stock_items
    → Ensures (λ _ w'. Books w'.db) (record_and_evaluate row c w)
record_one-Books row c w b k h =
    Ensures-map (λ _ w'. Noted row c w w') (λ _ w'. Books w'.db) (record_and_evaluate row c w)
      (λ _ w' n. record {
        keyed = subst Keyed (sym n.0) k;
        booked =
            subst (All (IsBooked w'.db)) (sym n.0)
              (All-map _ (IsBooked w'.db) (Noted-IsBooked row c w w' b n) w.db.stock_items h);
      })
      (record_and_evaluate-Noted row c w)

-- Recording the row that a statement has changed completes the books.
pub record_after-Books :
    (p : ℕ) (c : Change) (w : Inventory)
    → Balanced c
    → BooksBut p w.db
    → Ensures
        (λ _ w'. Books w'.db)
        (record_after (find (λ r. r.product_id == p) w.db.stock_items) c w)
record_after-Books p c w b k =
    elim (Option-cases (find (λ r. r.product_id == p) w.db.stock_items)) [
      | inl e ↦ rw e (record {
        keyed = k.keyed;
        booked =
            All-map _ _ (λ r y. y.1) w.db.stock_items
              (absent p (IsBooked w.db) w.db.stock_items e k.booked);
      })
      | inr (row, e) ↦ rw e (
          bind-Ensures (λ _ w'. Books w'.db) (λ _ w'. Books w'.db) (record_and_evaluate row c)
            (λ counts. pure tt) w
            (record_one-Books row c w b k.keyed
              (apart p (IsBooked w.db) w.db.stock_items row k.keyed e k.booked))
            (λ _ w' h. h))
    ]

-- So does recording the row read before, when the statement has found none.
pub record_current-Books :
    (p : ℕ) (row : StockItemRow) (c : Change) (w : Inventory)
    → Balanced c
    → row.product_id ≡ p
    → BooksBut p w.db
    → Ensures
        (λ _ w'. Books w'.db)
        (record_and_evaluate (or_else (find (λ r. r.product_id == p) w.db.stock_items) row) c w)
record_current-Books p row c w b q k =
    elim (Option-cases (find (λ r. r.product_id == p) w.db.stock_items)) [
      | inl e ↦ rw e (
          record_one-Books row c w b k.keyed (
            All-map _ _ (λ r y. inr (subst (λ n. (r.product_id == n) ≡ false) (sym q) y.0, y.1))
              w.db.stock_items (absent p (IsBooked w.db) w.db.stock_items e k.booked)))
      | inr (now, e) ↦ rw e (
          record_one-Books now c w b k.keyed
            (apart p (IsBooked w.db) w.db.stock_items now k.keyed e k.booked))
    ]

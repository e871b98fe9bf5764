-- ===== src/Inventory/Stock/Updates.antt =====
-- The `update` statements on `stock_items` as maps over the rows.
use mathlib.Core.Option.{some_inj}
use ecommerce_orderflow.Prelude.{
  ℕ, ◌+◌, ◌-◌, ◌≤◌, ◌≡◌, refl, List, [], ◌∷◌, map, some, true, arith, subst, Option-cases,
  Bool-cases, pos, neg_ℕ, All, any, find, ◌==◌, inl, inr, if◌then◌else◌,
}
use ecommerce_orderflow.Inventory.Tables.{StockItemRow}
use ecommerce_orderflow.Inventory.Repository.Rows.{update_items, shift_reserved, shift_on_hand}
use ecommerce_orderflow.Inventory.Stock.Consistency.{IsStocked}

-- What an update of product `p` by `q` does to a row.
abbrev pub part : ℕ → ℕ → StockItemRow → ℕ
part p q r = if r.product_id == p then q else 0

abbrev pub lower : ℕ → ℕ → StockItemRow → StockItemRow
lower p q r = record r { reserved = r.reserved - part p q r }

abbrev pub raise : ℕ → ℕ → StockItemRow → StockItemRow
raise p q r = record r { reserved = r.reserved + part p q r }

abbrev pub ship : ℕ → ℕ → StockItemRow → StockItemRow
ship p q r = record r { on_hand = r.on_hand - part p q r }

abbrev pub stock_up : ℕ → ℕ → StockItemRow → StockItemRow
stock_up p q r = record r { on_hand = r.on_hand + part p q r }

pub update-lower :
    (p q : ℕ) (items : List StockItemRow)
    → All (λ r. (part p q r ≤ r.reserved) × IsStocked r) items
    → update_items p (shift_reserved (neg_ℕ q)) items ≡ some (map (lower p q) items)
unfolding update_items shift_reserved
update-lower p q [] h = refl
update-lower p q (r ∷ rs) h = ground (arith, update-lower p q rs h.1)

pub update-ship :
    (p q : ℕ) (items : List StockItemRow)
    → All (λ r. (r.reserved + part p q r ≤ r.on_hand) × IsStocked r) items
    → update_items p (shift_on_hand (neg_ℕ q)) items ≡ some (map (ship p q) items)
unfolding update_items shift_on_hand
update-ship p q [] h = refl
update-ship p q (r ∷ rs) h = ground (arith, update-ship p q rs h.1)

-- A statement that ran has stored rows that pass their checks.
pub update-raise :
    (p q : ℕ) (items out : List StockItemRow)
    → All IsStocked items
    → update_items p (shift_reserved (pos q)) items ≡ some out
    → (out ≡ map (raise p q) items) × All IsStocked (map (raise p q) items)
unfolding update_items shift_reserved
update-raise p q [] out h e = (ground arith, tt)
update-raise p q (r ∷ rs) out h e =
    elim (Option-cases (update_items p (shift_reserved (pos q)) rs)) [
      | inl f ↦ absurd (ground arith)
      | inr (rest, f) ↦
          let (g, k) = update-raise p q rs rest h.1 f in (ground arith, (ground arith, k))
    ]

pub update-stock_up :
    (p q : ℕ) (items out : List StockItemRow)
    → All IsStocked items
    → update_items p (shift_on_hand (pos q)) items ≡ some out
    → (out ≡ map (stock_up p q) items) × All IsStocked (map (stock_up p q) items)
unfolding update_items shift_on_hand
update-stock_up p q [] out h e = (ground arith, tt)
update-stock_up p q (r ∷ rs) out h e =
    elim (Option-cases (update_items p (shift_on_hand (pos q)) rs)) [
      | inl f ↦ absurd (ground arith)
      | inr (rest, f) ↦
          let (g, k) = update-stock_up p q rs rest h.1 f in (ground arith, (ground arith, k))
    ]

-- What a statement does not do: it neither adds nor removes a row.
pub any-map :
    (p : ℕ) (f : StockItemRow → StockItemRow) (items : List StockItemRow)
    → ((r : StockItemRow) → (f r).product_id ≡ r.product_id)
    → any (λ r. r.product_id == p) (map f items) ≡ any (λ r. r.product_id == p) items
any-map p f [] h = refl
any-map p f (r ∷ rs) h = rw (h r, any-map p f rs h)

pub find-any :
    (p : ℕ) (items : List StockItemRow) (row : StockItemRow)
    → find (λ r. r.product_id == p) items ≡ some row
    → (row.product_id ≡ p) × (any (λ r. r.product_id == p) items ≡ true)
find-any p [] row e = absurd (cc)
find-any p (r ∷ rs) row e = ground (arith, find-any p rs row)

pub find-All :
    (p : ℕ) (P : StockItemRow → Type 0) (items : List StockItemRow) (row : StockItemRow)
    → All P items
    → find (λ r. r.product_id == p) items ≡ some row
    → P row
find-All p P [] row h e = absurd (cc)
find-All p P (r ∷ rs) row h e = elim (Bool-cases (r.product_id == p)) [
  | inl t ↦ subst P (some_inj.0 (rw t at e)) h.0
  | inr t ↦ find-All p P rs row h.1 (rw t at e)
]

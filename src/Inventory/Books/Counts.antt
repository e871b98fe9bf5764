-- ===== src/Inventory/Books/Counts.antt =====
-- The books across the statements of apps/inventory-service/src/db/inventory.repository.ts that change the
-- counts of one product.
use mathlib.Core.Option.{some_inj}
use ecommerce_orderflow.Prelude.{
  ℕ, ◌≡◌, ◌⊎◌, inl, inr, refl, sym, ap, List, [], ◌∷◌, Bool, true, false, Option, none, some, All,
  All-map, ℤ, ◌==◌, arith, Option-cases, if◌then◌else◌,
}
use ecommerce_orderflow.Runtime.Laws.{Ensures}
use ecommerce_orderflow.Inventory.Tables.{StockItemRow, Db, Inventory}
use ecommerce_orderflow.Inventory.Repository.Rows.{
  update_items, cons_row, shift_reserved, shift_on_hand,
}
use ecommerce_orderflow.Inventory.Repository.{adjust_reserved, adjust_on_hand}
use ecommerce_orderflow.Inventory.Books.{IsBooked, names, Keyed, Books, BooksBut}

-- A change of counts leaves the key of the row.
abbrev KeepsKey : (StockItemRow → Option StockItemRow) → Type 0
KeepsKey f = (r s : StockItemRow) → f r ≡ some s → s.product_id ≡ r.product_id

shift_reserved-KeepsKey : (z : ℤ) → KeepsKey (shift_reserved z)
unfolding shift_reserved
shift_reserved-KeepsKey z r s e = ground arith

shift_on_hand-KeepsKey : (z : ℤ) → KeepsKey (shift_on_hand z)
unfolding shift_on_hand
shift_on_hand-KeepsKey z r s e = ground arith

-- What the row is after `update_items`, and what the others are.
abbrev RowStep : ℕ → (StockItemRow → Option StockItemRow) → StockItemRow → StockItemRow → Type 0
RowStep p f r s =
    (((r.product_id == p) ≡ true) × (f r ≡ some s)) ⊎ (((r.product_id == p) ≡ false) × (s ≡ r))

abbrev RowSteps :
    ℕ → (StockItemRow → Option StockItemRow) → List StockItemRow → List StockItemRow → Type 0
RowSteps p f [] out = out ≡ []
RowSteps p f (r ∷ rs) out =
    (s : StockItemRow) × (ss : List StockItemRow) × (out ≡ s ∷ ss)
    × RowStep p f r s
    × RowSteps p f rs ss

cons_row-parts :
    (a : Option StockItemRow) (b : Option (List StockItemRow)) (out : List StockItemRow)
    → cons_row a b ≡ some out
    → (s : StockItemRow) × (ss : List StockItemRow) × (out ≡ s ∷ ss) × (a ≡ some s) × (b ≡ some ss)
cons_row-parts none b out e = absurd (cc)
cons_row-parts (some a) none out e = absurd (cc)
cons_row-parts (some a) (some b) out e = (a, b, sym (some_inj.0 e), refl, refl)

update_items-RowSteps :
    (p : ℕ) (f : StockItemRow → Option StockItemRow) (rs out : List StockItemRow)
    → update_items p f rs ≡ some out
    → RowSteps p f rs out
unfolding update_items
update_items-RowSteps p f [] out e = sym (some_inj.0 e)
update_items-RowSteps p f (r ∷ rs) out e =
    let (s, ss, q, a, b) =
      cons_row-parts (if r.product_id == p then f r else some r) (update_items p f rs) out e in
    (s, ss, q, stepped (r.product_id == p) refl a, update_items-RowSteps p f rs ss b)
  where
    stepped :
        (b : Bool) {s : StockItemRow}
        → (r.product_id == p) ≡ b
        → (if b then f r else some r) ≡ some s
        → RowStep p f r s
    stepped true k a = inl (k, a)
    stepped false k a = inr (k, sym (some_inj.0 a))

module _ (p : ℕ) (f : StockItemRow → Option StockItemRow) (keeps : KeepsKey f) where
  RowStep-key : (r s : StockItemRow) → RowStep p f r s → s.product_id ≡ r.product_id
  RowStep-key r s (inl (e, k)) = keeps r s k
  RowStep-key r s (inr (e, k)) = ap (λ x. x.product_id) k

  RowSteps-names :
      (k : ℕ) (rs out : List StockItemRow) → RowSteps p f rs out → names k out ≡ names k rs
  RowSteps-names k [] out h = rw h refl
  RowSteps-names k (r ∷ rs) out (s, ss, q, a, h) =
      rw (q, RowStep-key r s a, RowSteps-names k rs ss h) refl

  RowSteps-Keyed : (rs out : List StockItemRow) → RowSteps p f rs out → Keyed rs → Keyed out
  RowSteps-Keyed [] out h k = rw h tt
  RowSteps-Keyed (r ∷ rs) out (s, ss, q, a, h) k =
      rw q (
        rw (RowStep-key r s a, RowSteps-names r.product_id rs ss h) k.0,
        RowSteps-Keyed rs ss h k.1,
      )

  -- Every other row is as it was.
  RowSteps-others :
      (Q : StockItemRow → Type 0) (rs out : List StockItemRow)
      → RowSteps p f rs out
      → All (λ r. ((r.product_id == p) ≡ true) ⊎ Q r) rs
      → All (λ r. ((r.product_id == p) ≡ true) ⊎ Q r) out
  RowSteps-others Q [] out h k = rw h tt
  RowSteps-others Q (r ∷ rs) out (s, ss, q, inl (e, a), h) k =
      rw q (inl (rw (keeps r s a) e), RowSteps-others Q rs ss h k.1)
  RowSteps-others Q (r ∷ rs) out (s, ss, q, inr (e, a), h) k =
      rw (q, a) (k.0, RowSteps-others Q rs ss h k.1)

  update_items-BooksBut :
      (d : Db) (out : List StockItemRow)
      → update_items p f d.stock_items ≡ some out
      → BooksBut p d
      → BooksBut p (record d { stock_items = out })
  update_items-BooksBut d out e b =
      let h = update_items-RowSteps p f d.stock_items out e in
      record {
        keyed = RowSteps-Keyed d.stock_items out h b.keyed;
        booked = RowSteps-others (IsBooked d) d.stock_items out h b.booked;
      }

pub Books-BooksBut : (p : ℕ) (d : Db) → Books d → BooksBut p d
Books-BooksBut p d b = record {
  keyed = b.keyed;
  booked = All-map (IsBooked d) _ (λ r h. inr h) d.stock_items b.booked;
}

abbrev pub Unbooked : {A : Type 0} → ℕ → A → Inventory → Type 0
Unbooked p a w = BooksBut p w.db

pub adjust_reserved-BooksBut :
    (p : ℕ) (z : ℤ) (w : Inventory) → BooksBut p w.db → Ensures (Unbooked p) (adjust_reserved p z w)
unfolding adjust_reserved
adjust_reserved-BooksBut p z w b =
    elim (Option-cases (update_items p (shift_reserved z) w.db.stock_items)) [
      | inl e ↦ rw e tt
      | inr (out, e) ↦
          rw e (update_items-BooksBut p (shift_reserved z) (shift_reserved-KeepsKey z) w.db out e b)
    ]

pub adjust_on_hand-BooksBut :
    (p : ℕ) (z : ℤ) (w : Inventory) → BooksBut p w.db → Ensures (Unbooked p) (adjust_on_hand p z w)
unfolding adjust_on_hand
adjust_on_hand-BooksBut p z w b =
    elim (Option-cases (update_items p (shift_on_hand z) w.db.stock_items)) [
      | inl e ↦ rw e tt
      | inr (out, e) ↦
          rw e (update_items-BooksBut p (shift_on_hand z) (shift_on_hand-KeepsKey z) w.db out e b)
    ]

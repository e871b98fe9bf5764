-- ===== src/Inventory/Gauges/Sorted.antt =====
-- Rows of stock in the order of a statement's `order by`.
use ecommerce_orderflow.Prelude.{
  ℕ, String, str_eq, eq_iff, ◌≡◌, refl, sym, ap, ◌∙◌, List, [], ◌∷◌, false, ◌||◌, All, leb,
  insert_by, sort_by, arith, Bool-cases, inl, inr,
}
use ecommerce_orderflow.Inventory.Tables.{StockItemRow}
use ecommerce_orderflow.Inventory.Gauges.Lookup.{has_sku, DistinctSkus}

unlike : (s t : String) → str_eq s t ≡ false → str_eq t s ≡ false
unlike s t n = elim (Bool-cases (str_eq t s)) [
  | inl e ↦ let q = (eq_iff s t).1 (sym ((eq_iff t s).0 e)) in cc
  | inr e ↦ e
]

module _ (key : StockItemRow → ℕ) where
  has_sku-insert_by :
      (k : String) (i : StockItemRow) (is : List StockItemRow)
      → has_sku k (insert_by key i is) ≡ (str_eq i.sku k || has_sku k is)
  has_sku-insert_by k i [] = refl
  has_sku-insert_by k i (x ∷ is) = ground (arith, has_sku-insert_by k i is)

  has_sku-sort_by :
      (k : String) (is : List StockItemRow) → has_sku k (sort_by key is) ≡ has_sku k is
  has_sku-sort_by k [] = refl
  has_sku-sort_by k (i ∷ is) =
      has_sku-insert_by k i (sort_by key is) ∙ ap (λ b. str_eq i.sku k || b) (has_sku-sort_by k is)

  DistinctSkus-insert_by :
      (i : StockItemRow) (is : List StockItemRow)
      → has_sku i.sku is ≡ false
      → DistinctSkus is
      → DistinctSkus (insert_by key i is)
  DistinctSkus-insert_by i [] n d = (refl, tt)
  DistinctSkus-insert_by i (x ∷ is) n d = elim (Bool-cases (leb (key i) (key x))) [
    | inl e ↦ rw e (n, d)
    | inr e ↦ rw e (
      has_sku-insert_by x.sku i is ∙ ground (arith, unlike x.sku i.sku (ground (arith, n)), d.0),
      DistinctSkus-insert_by i is (ground (arith, n)) d.1,
    )
  ]

  pub DistinctSkus-sort_by :
      (is : List StockItemRow) → DistinctSkus is → DistinctSkus (sort_by key is)
  DistinctSkus-sort_by [] d = tt
  DistinctSkus-sort_by (i ∷ is) d =
      DistinctSkus-insert_by i (sort_by key is) (has_sku-sort_by i.sku is ∙ d.0)
        (DistinctSkus-sort_by is d.1)

  All-uninsert :
      (P : StockItemRow → Type 0) (i : StockItemRow) (is : List StockItemRow)
      → All P (insert_by key i is)
      → P i × All P is
  All-uninsert P i [] h = h
  All-uninsert P i (x ∷ is) h = elim (Bool-cases (leb (key i) (key x))) [
    | inl e ↦ rw e at h
    | inr e ↦ let k = (rw e at h) in let m = All-uninsert P i is k.1 in (m.0, (k.0, m.1))
  ]

  pub All-unsort :
      (P : StockItemRow → Type 0) (is : List StockItemRow) → All P (sort_by key is) → All P is
  All-unsort P [] h = tt
  All-unsort P (i ∷ is) h =
      let k = All-uninsert P i (sort_by key is) h in (k.0, All-unsort P is k.1)

-- ===== src/Inventory/Gauges/Lookup.antt =====
-- What the gauges of apps/inventory-service/src/observability/metrics.service.ts show.
use ecommerce_orderflow.Prelude.{
  String, str_eq, eq_iff, ◌≡◌, refl, sym, ap, ◌∙◌, List, [], ◌∷◌, Bool, true, false, Option, none,
  some, any, All, ℤ, arith, Bool-cases, inl, inr, if◌then◌else◌,
}
use ecommerce_orderflow.Inventory.Tables.{StockItemRow}
use ecommerce_orderflow.Inventory.Gauges.{Sample, set_gauge}

abbrev pub value_of : String → List Sample → Option ℤ
value_of sku [] = none
value_of sku (x ∷ xs) = if str_eq x.sku sku then some x.value else value_of sku xs

same_text : (s : String) → str_eq s s ≡ true
same_text s = (eq_iff s s).1 refl

apart_texts : (a b k : String) → str_eq a b ≡ false → str_eq a k ≡ true → str_eq b k ≡ false
apart_texts a b k e t = elim (Bool-cases (str_eq b k)) [
  | inl h ↦ let q = (eq_iff a b).1 ((eq_iff a k).0 t ∙ sym ((eq_iff b k).0 h)) in cc
  | inr h ↦ h
]

value_of-set_gauge :
    (k sku : String) (v : ℤ) (xs : List Sample)
    → value_of k (set_gauge sku v xs) ≡ (if str_eq sku k then some v else value_of k xs)
value_of-set_gauge k sku v [] = refl
value_of-set_gauge k sku v (x ∷ xs) = elim (Bool-cases (str_eq x.sku sku)) [
  | inl e ↦ rw e (ground (arith, ap (λ t. str_eq t k) ((eq_iff x.sku sku).0 e)))
  | inr e ↦ rw e (elim (Bool-cases (str_eq x.sku k)) [
    | inl t ↦ rw (t, apart_texts x.sku sku k e t) refl
    | inr t ↦ rw (t, value_of-set_gauge k sku v xs) refl
  ])
]

-- One gauge under the loop.
abbrev pub fill : (StockItemRow → ℤ) → List StockItemRow → List Sample → List Sample
fill f [] xs = xs
fill f (i ∷ is) xs = fill f is (set_gauge i.sku (f i) xs)

abbrev pub has_sku : String → List StockItemRow → Bool
has_sku k is = any (λ i. str_eq i.sku k) is

-- `sku` is unique.
abbrev pub DistinctSkus : List StockItemRow → Type 0
DistinctSkus [] = Unit
DistinctSkus (i ∷ is) = (has_sku i.sku is ≡ false) × DistinctSkus is

fill-absent :
    (k : String) (f : StockItemRow → ℤ) (is : List StockItemRow) (xs : List Sample)
    → has_sku k is ≡ false
    → value_of k (fill f is xs) ≡ value_of k xs
fill-absent k f [] xs n = refl
fill-absent k f (i ∷ is) xs n =
    fill-absent k f is (set_gauge i.sku (f i) xs) (ground (arith, n))
    ∙ value_of-set_gauge k i.sku (f i) xs
    ∙ ground (arith, n)

pub fill-shows :
    (f : StockItemRow → ℤ) (is : List StockItemRow) (xs : List Sample)
    → DistinctSkus is
    → All (λ i. value_of i.sku (fill f is xs) ≡ some (f i)) is
fill-shows f [] xs d = tt
fill-shows f (i ∷ is) xs d = (
  fill-absent i.sku f is (set_gauge i.sku (f i) xs) d.0
      ∙ value_of-set_gauge i.sku i.sku (f i) xs
      ∙ rw (same_text i.sku) refl,
  fill-shows f is (set_gauge i.sku (f i) xs) d.1,
)

-- ===== src/Orders/Fingerprint/Ordering.antt =====
-- The order of apps/workflow-service/src/common/idempotency.ts on keys, and the sort by it.
use ecommerce_orderflow.Prelude.{
  ◌≡◌, ◌≢◌, refl, sym, ap₂, List, [], ◌∷◌, true, false, not, ◌==◌, ==_iff, ==_self, arith,
  Bool-cases, inl, inr,
}
use ecommerce_orderflow.Orders.Fingerprint.{Text, before, Entry, insert_entry}

before_asym : (s t : Text) → before s t ≡ true → before t s ≡ false
before_asym [] [] h = refl
before_asym [] (y ∷ ys) h = refl
before_asym (x ∷ xs) [] h = cc
before_asym (x ∷ xs) (y ∷ ys) h = ground (arith, before_asym xs ys, h)

-- Of two different keys one comes first.
before_total : (s t : Text) → s ≢ t → before s t ≡ false → before t s ≡ true
before_total [] [] n h = absurd (n refl)
before_total [] (y ∷ ys) n h = cc
before_total (x ∷ xs) [] n h = refl
before_total (x ∷ xs) (y ∷ ys) n h = elim (Bool-cases (x == y)) [
  | inl e ↦
      rw (sym ((==_iff x y).0 e), ==_self x)
        (before_total xs ys (λ k. n (ap₂ ◌∷◌ ((==_iff x y).0 e) k)) (ground (arith, e, h)))
  | inr e ↦ ground (arith, e, h)
]

before_trans : (s t u : Text) → before s t ≡ true → before t u ≡ true → before s u ≡ true
before_trans [] [] u h k = cc
before_trans [] (y ∷ ys) [] h k = cc
before_trans [] (y ∷ ys) (z ∷ zs) h k = refl
before_trans (x ∷ xs) [] u h k = cc
before_trans (x ∷ xs) (y ∷ ys) [] h k = cc
before_trans (x ∷ xs) (y ∷ ys) (z ∷ zs) h k = ground (arith, before_trans xs ys zs, h, k)

before_flip : (s t : Text) → s ≢ t → before s t ≡ not (before t s)
before_flip s t n = elim (Bool-cases (before s t)) [
  | inl e ↦ rw (e, before_asym s t e) refl
  | inr e ↦ rw (e, before_total s t n e) refl
]

-- Two entries with different keys may be inserted in either order.
pub insert_entry_comm :
    (e f : Entry) (xs : List Entry)
    → e.key ≢ f.key
    → insert_entry e (insert_entry f xs) ≡ insert_entry f (insert_entry e xs)
insert_entry_comm e f [] n = ground (arith, before_flip e.key f.key n)
insert_entry_comm e f (x ∷ xs) n = ground (
  arith,
  before_flip e.key f.key n,
  before_trans x.key e.key f.key,
  before_trans x.key f.key e.key,
  insert_entry_comm e f xs n,
)

-- ===== src/Orders/Fingerprint/Payload/Units.antt =====
-- Texts that end at a unit which they do not hold, as in the canonical form of
-- apps/workflow-service/src/common/idempotency.ts.
use ecommerce_orderflow.Prelude.{ℕ, ◌≡◌, refl, ap, ap₂, [], ◌∷◌, ◌++◌, false, ◌==◌, All, arith}
use ecommerce_orderflow.Orders.Fingerprint.{Text}

abbrev pub Lacks : ℕ → Text → Type 0
Lacks c t = All (λ x. (x == c) ≡ false) t

abbrev tail : Text → Text
tail [] = []
tail (x ∷ xs) = xs

abbrev first : Text → ℕ
first [] = 0
first (x ∷ xs) = x

pub assoc_text : (s t u : Text) → (s ++ t) ++ u ≡ s ++ (t ++ u)
assoc_text [] t u = refl
assoc_text (x ∷ s) t u = ap (λ r. x ∷ r) (assoc_text s t u)

pub nil_text : (s : Text) → s ++ [] ≡ s
nil_text [] = refl
nil_text (x ∷ s) = ap (λ r. x ∷ r) (nil_text s)

-- Where the unit comes first, the texts part.
pub split_at :
    (c : ℕ) (s t u v : Text) → Lacks c s → Lacks c t → s ++ c ∷ u ≡ t ++ c ∷ v → (s ≡ t) × (u ≡ v)
split_at c [] [] u v h k e = (refl, ap tail e)
split_at c [] (y ∷ t) u v h k e = let q : c ≡ y = ap first e in absurd (ground (arith, k.0, q))
split_at c (x ∷ s) [] u v h k e = let q : x ≡ c = ap first e in absurd (ground (arith, h.0, q))
split_at c (x ∷ s) (y ∷ t) u v h k e =
    let (p, q) = split_at c s t u v h.1 k.1 (ap tail e) in (ap₂ ◌∷◌ (ap first e) p, q)

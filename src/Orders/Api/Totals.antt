-- ===== src/Orders/Api/Totals.antt =====
-- How large the total of an accepted order can be, in `placeOrder` of
-- apps/workflow-service/src/orders/orders.service.ts.
use native.Mathlib.Nat.{le_trans, mul-le-mul_left, mul-le-mul_right}
use mathlib.Core.Option.{some_inj}
use ecommerce_orderflow.Prelude.{
  ℕ, suc, ◌*◌, ◌≤◌, ◌<◌, ◌≡◌, ◌^◌, All-filter, refl, ap, subst, List, [], ◌∷◌, Option, none, some,
  length, All, find, ◌==◌, Bool-cases, inl, inr, arith,
}
use ecommerce_orderflow.Runtime.{ok, ◌>>=◌, pure}
use ecommerce_orderflow.Runtime.Laws.{Ensures, bind-Ensures, Ensures-ok}
use ecommerce_orderflow.Inventory.Service.Record.{Line}
use ecommerce_orderflow.Inventory.Repository.Rows.{int4_max}
use ecommerce_orderflow.Orders.Tables.{ProductRow, Orders}
use ecommerce_orderflow.Orders.Placement.{
  PlaceOrderInput, PricedLine, price_found, price_lines, price_in, total_cents,
}
use ecommerce_orderflow.Orders.Repository.{find_products}
use ecommerce_orderflow.Orders.Dto.{Text, PlaceOrderBody, parse_place_order}
use ecommerce_orderflow.Orders.Api.Amounts.{IsOrdered, parse_place_order-IsOrdered}

-- A line with a price that fits its column.
abbrev IsPriced : PricedLine → Type 0
IsPriced l = (l.quantity ≤ 1000) × (l.unit_price_cents ≤ int4_max)

abbrev IsSold : ProductRow → Type 0
IsSold p = p.unit_price_cents ≤ int4_max

line-bound : (q u : ℕ) → q ≤ 1000 → u ≤ int4_max → u * q ≤ int4_max * 1000
line-bound q u h k = le_trans (mul-le-mul_left u h) (mul-le-mul_right 1000 k)

total_cents-bound :
    (ls : List PricedLine) → All IsPriced ls → total_cents ls ≤ length ls * (int4_max * 1000)
unfolding total_cents
total_cents-bound [] h = omega arith
total_cents-bound (l ∷ ls) h =
    omega (arith, line-bound l.quantity l.unit_price_cents h.0.0 h.0.1, total_cents-bound ls h.1)

find-IsSold :
    (k : ℕ) (ps : List ProductRow) (p : ProductRow)
    → All IsSold ps
    → find (λ x. x.id == k) ps ≡ some p
    → IsSold p
find-IsSold k [] p h e = absurd (cc)
find-IsSold k (x ∷ ps) p h e = elim (Bool-cases (x.id == k)) [
  | inl t ↦ subst IsSold (some_inj.0 (rw t at e)) h.0
  | inr t ↦ find-IsSold k ps p h.1 (rw t at e)
]

price_found-IsPriced :
    (l : Line) (x : Option ProductRow) (w : Orders)
    → l.quantity ≤ 1000
    → ((p : ProductRow) → x ≡ some p → IsSold p)
    → Ensures (λ y _. IsPriced y) (price_found l x w)
price_found-IsPriced l none w q h = tt
price_found-IsPriced l (some p) w q h = (q, h p refl)

-- A line for each line of the order.
price_lines-IsPriced :
    (ps : List ProductRow) (ls : List Line) (w : Orders)
    → All IsSold ps
    → All IsOrdered ls
    → Ensures (λ ys _. (length ys ≡ length ls) × All IsPriced ys) (price_lines ps ls w)
price_lines-IsPriced ps [] w h k = (refl, tt)
price_lines-IsPriced ps (l ∷ ls) w h k =
    bind-Ensures (λ y _. IsPriced y) (λ ys _. (length ys ≡ length (l ∷ ls)) × All IsPriced ys)
      (price_found l (find (λ p. p.id == l.product_id) ps))
      (λ y. price_lines ps ls >>= λ ys. pure (y ∷ ys)) w
      (price_found-IsPriced l (find (λ p. p.id == l.product_id) ps) w k.0.1
        (λ p. find-IsSold l.product_id ps p h))
      λ y w₁ m.
        bind-Ensures (λ ys _. (length ys ≡ length ls) × All IsPriced ys)
          (λ ys _. (length ys ≡ length (l ∷ ls)) × All IsPriced ys) (price_lines ps ls)
          (λ ys. pure (y ∷ ys)) w₁ (price_lines-IsPriced ps ls w₁ h k.1)
          (λ ys w₂ n. (ap suc n.0, (m, n.1)))

-- The total of an order that the schema accepts, at prices that fit their column, is below 2^53: the
-- numbers of JavaScript hold it exactly.
pub total_cents-exact :
    (text : Text) (body : PlaceOrderBody) (i : PlaceOrderInput) (w : Orders)
    (lines : List PricedLine)
    → parse_place_order text body ≡ some i
    → All (λ p. p.unit_price_cents ≤ int4_max) w.db.products
    → (price_in i.items w).0 ≡ ok lines
    → total_cents lines < 2 ^ 53
unfolding price_in find_products
total_cents-exact text body i w lines e h k =
    let o = parse_place_order-IsOrdered text body i e in
    let n =
      Ensures-ok (λ ys _. (length ys ≡ length i.items) × All IsPriced ys) (price_in i.items w) lines
        k (price_lines-IsPriced _ i.items w (All-filter IsSold _ w.db.products h) o.2) in
    omega (arith, total_cents-bound lines n.1, n.0, o.1)

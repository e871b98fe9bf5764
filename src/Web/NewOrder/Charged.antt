-- ===== src/Web/NewOrder/Charged.antt =====
-- The total that apps/web/app/new/page.tsx shows and the one that `priceOrder` of
-- apps/workflow-service/src/orders/orders.service.ts computes.
use ecommerce_orderflow.Prelude.{
  ℕ, ◌*◌, ◌≡◌, refl, sym, ap, ◌∙◌, subst, List, [], ◌∷◌, map, true, Option, none, some, filter,
  find, any, ◌==◌, ==_self, ==_iff, All, All-map, sum_by, arith, Bool-cases, inl, inr,
}
use native.Mathlib.Nat.{mul_comm}
use ecommerce_orderflow.Runtime.{ok, ◌>>=◌, pure}
use ecommerce_orderflow.Runtime.Laws.{Ensures, Ensures-ok, bind-Ensures}
use ecommerce_orderflow.Inventory.Service.Record.{Line}
use ecommerce_orderflow.Orders.Tables.{ProductRow, Orders}
use ecommerce_orderflow.Orders.Repository.{find_products}
use ecommerce_orderflow.Orders.Placement.{
  PricedLine, price_found, price_lines, price_in, total_cents,
}
use ecommerce_orderflow.Web.NewOrder.{Product, items_of, page_total}
use ecommerce_orderflow.Web.NewOrder.Totals.{
  Edit, after_changes, after_changes-Distinct, price_of, IsKeyed, Lists, charge, page_total_lem,
}

found-price_of :
    (k : ℕ) (ps : List ProductRow) (r : ProductRow)
    → find (λ p. p.id == k) ps ≡ some r
    → price_of k ps ≡ r.unit_price_cents
found-price_of k [] r e = cc
found-price_of k (p ∷ ps) r e = ground (arith, e, found-price_of k ps r)

-- What a list of lines comes to at the prices of a list of products.
abbrev Charged : List ProductRow → List Line → List PricedLine → Orders → Type 0
Charged ps ls lines w = total_cents lines ≡ sum_by (charge ps) ls

price_found-charge :
    (ps : List ProductRow) (l : Line) (x : Option ProductRow) (w : Orders)
    → find (λ p. p.id == l.product_id) ps ≡ x
    → Ensures (λ p w'. p.unit_price_cents * p.quantity ≡ charge ps l) (price_found l x w)
price_found-charge ps l none w e = tt
price_found-charge ps l (some r) w e =
    mul_comm r.unit_price_cents l.quantity
    ∙ ap (λ n. l.quantity * n) (sym (found-price_of l.product_id ps r e))

price_lines-Charged :
    (ps : List ProductRow) (ls : List Line) (w : Orders)
    → Ensures (Charged ps ls) (price_lines ps ls w)
unfolding total_cents
price_lines-Charged ps [] w = refl
price_lines-Charged ps (l ∷ ls) w =
    let seen = find (λ p. p.id == l.product_id) ps in
    bind-Ensures (λ p w'. p.unit_price_cents * p.quantity ≡ charge ps l) (Charged ps (l ∷ ls))
      (price_found l seen) (λ x. price_lines ps ls >>= λ xs. pure (x ∷ xs)) w
      (price_found-charge ps l seen w refl)
      λ x w₁ h.
        bind-Ensures (Charged ps ls) (Charged ps (l ∷ ls)) (price_lines ps ls) (λ xs. pure (x ∷ xs))
          w₁ (price_lines-Charged ps ls w₁) (λ xs w₂ k. omega (arith, h, k))

-- The products that `findProducts` returns have their prices.
abbrev asked : List ℕ → List ProductRow → List ProductRow
asked ids rs = filter (λ p. any (λ i. i == p.id) ids) rs

price_of-asked :
    (k : ℕ) (ids : List ℕ) (rs : List ProductRow)
    → any (λ i. i == k) ids ≡ true
    → price_of k (asked ids rs) ≡ price_of k rs
price_of-asked k ids [] h = refl
price_of-asked k ids (r ∷ rs) h = elim (Bool-cases (r.id == k)) [
  | inl e ↦
      let named = subst (λ n. any (λ i. i == n) ids ≡ true) (sym ((==_iff r.id k).0 e)) h in
      rw (named, e) refl
  | inr e ↦ ground (arith, e, price_of-asked k ids rs h)
]

abbrev Names : List ℕ → Line → Type 0
Names ids l = any (λ i. i == l.product_id) ids ≡ true

All-Names : (ls : List Line) → All (Names (map (λ l. l.product_id) ls)) ls
All-Names [] = tt
All-Names (l ∷ ls) = (
  ground (arith, ==_self l.product_id),
  All-map (Names (map (λ l. l.product_id) ls)) (Names (map (λ l. l.product_id) (l ∷ ls)))
      (λ m h. ground (arith, h)) ls (All-Names ls),
)

sum-asked :
    (ids : List ℕ) (rs : List ProductRow) (ls : List Line)
    → All (Names ids) ls
    → sum_by (charge (asked ids rs)) ls ≡ sum_by (charge rs) ls
sum-asked ids rs [] h = refl
sum-asked ids rs (l ∷ ls) (h, hs) =
    rw (price_of-asked l.product_id ids rs h, sum-asked ids rs ls hs)

price_in-Charged :
    (items : List Line) (w : Orders)
    → Ensures
        (Charged (asked (map (λ l. l.product_id) items) w.db.products) items)
        (price_in items w)
unfolding price_in find_products
price_in-Charged items w =
    price_lines-Charged (asked (map (λ l. l.product_id) items) w.db.products) items w

-- The total that the page shows is the total that is charged: after any changes of the quantities, when
-- the page lists the products of the table with their prices, their ids are distinct, and the service
-- prices the lines that the page submits, the page's total is the sum of the priced lines.
pub page_total-total_cents :
    (cs : List Edit) (ps : List Product) (w : Orders) (lines : List PricedLine)
    → Lists ps w.db.products
    → IsKeyed w.db.products
    → (price_in (items_of (after_changes cs [])) w).0 ≡ ok lines
    → page_total ps (after_changes cs []) ≡ total_cents lines
page_total-total_cents cs ps w lines l k e =
    let q = after_changes cs [] in
    let items = items_of q in
    let ids = map (λ l. l.product_id) items in
    page_total_lem q ps w.db.products l k (after_changes-Distinct cs [] tt)
    ∙ sym (sum-asked ids w.db.products items (All-Names items))
    ∙ sym (
        Ensures-ok (Charged (asked ids w.db.products) items) (price_in items w) lines e
          (price_in-Charged items w))

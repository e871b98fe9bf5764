-- ===== src/Orders/Api/Amounts.antt =====
-- Which orders the schema of apps/workflow-service/src/orders/dto.ts lets through, and how large their totals
-- can be.
use mathlib.Core.Option.{some_inj, bind}
use ecommerce_orderflow.Prelude.{
  ℕ, suc, ◌≤◌, ◌≡◌, refl, sym, ap, subst, List, [], ◌∷◌, ◌&&◌, Option, none, some, ℤ, ltb, leb,
  length, All, arith,
}
use ecommerce_orderflow.Inventory.Service.Record.{Line}
use ecommerce_orderflow.Orders.Placement.{PlaceOrderInput}
use ecommerce_orderflow.Orders.Dto.{
  Text, LineBody, PlaceOrderBody, quantity_within, when_so, text_given, parse_line, parse_lines,
  parse_place_order,
}

-- A quantity that the schema accepts.
abbrev pub IsOrdered : Line → Type 0
IsOrdered l = (1 ≤ l.quantity) × (l.quantity ≤ 1000)

quantity_within-bounds :
    (most : ℕ) (q : ℤ) (n : ℕ) → quantity_within most q ≡ some n → (1 ≤ n) × (n ≤ most)
quantity_within-bounds most q n e = ground (arith, e)

-- A chain that gave a result has done so at each step.
bind-parts :
    {A B : Type 0} (o : Option A) (f : A → Option B) (b : B)
    → bind o f ≡ some b
    → (a : A) × (o ≡ some a) × (f a ≡ some b)
unfolding bind
bind-parts none f b e = absurd (cc)
bind-parts (some a) f b e = (a, refl, e)

parse_line-IsOrdered :
    (text : Text) (b : LineBody) (l : Line) → parse_line text b ≡ some l → IsOrdered l
unfolding parse_line
parse_line-IsOrdered text b l e =
    let (u, f, g) = bind-parts (text.uuid b.product_id) _ l e in
    let (q, h, k) = bind-parts (quantity_within 1000 b.quantity) _ l g in
    subst IsOrdered (some_inj.0 k) (quantity_within-bounds 1000 b.quantity q h)

-- Each line of the body is a line of the order.
parse_lines-IsOrdered :
    (text : Text) (bs : List LineBody) (ls : List Line)
    → parse_lines text bs ≡ some ls
    → (length ls ≡ length bs) × All IsOrdered ls
unfolding parse_lines
parse_lines-IsOrdered text [] ls e = rw (sym (some_inj.0 e)) (refl, tt)
parse_lines-IsOrdered text (b ∷ bs) ls e =
    let (l, f, g) = bind-parts (parse_line text b) _ ls e in
    let (rest, h, k) = bind-parts (parse_lines text bs) _ ls g in
    let (n, o) = parse_lines-IsOrdered text bs rest h in
    rw (sym (some_inj.0 k)) (ap suc n, (parse_line-IsOrdered text b l f, o))

-- The order that the schema gives has from 1 to 100 lines, of 1 to 1000 pieces each.
pub parse_place_order-IsOrdered :
    (text : Text) (body : PlaceOrderBody) (i : PlaceOrderInput)
    → parse_place_order text body ≡ some i
    → (1 ≤ length i.items) × (length i.items ≤ 100) × All IsOrdered i.items
unfolding parse_place_order
parse_place_order-IsOrdered text body i e =
    let (u, f, g) =
      bind-parts (when_so (ltb 0 (length body.items) && leb (length body.items) 100) tt) _ i e in
    let (ls, h, k) = bind-parts (parse_lines text body.items) _ i g in
    let (key, m, n) = bind-parts (text_given text 8 200 body.idempotency_key) _ i k in
    let (o, q) = parse_lines-IsOrdered text body.items ls h in
    subst (λ xs. (1 ≤ length xs) × (length xs ≤ 100) × All IsOrdered xs)
      (ap (λ x. x.items) (some_inj.0 n)) (ground (arith, f, o), ground (arith, f, o), q)

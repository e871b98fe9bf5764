-- ===== src/Web/NewOrder/Totals.antt =====
-- The lines and the total of apps/web/app/new/page.tsx, against the prices that `placeOrder` of
-- apps/workflow-service/src/orders/orders.service.ts charges.
use ecommerce_orderflow.Prelude.{
  ℕ, ℤ, ◌+◌, ◌*◌, ◌≡◌, refl, subst, ◌∙◌, List, [], ◌∷◌, Bool, true, false, any, ◌==◌, ==_iff,
  sum_by, arith, Bool-cases, inl, inr, if◌then◌else◌,
}
use ecommerce_orderflow.Orders.Tables.{ProductRow}
use ecommerce_orderflow.Inventory.Service.Record.{Line}
use ecommerce_orderflow.Web.NewOrder.{
  Product, Entry, set_entry, set_qty, at_least_zero, quantity_of, items_of, page_total,
}

-- The inputs that were changed, in turn, since the page was opened.
abbrev pub Edit : Type 0
Edit = ℕ × ℤ

unfoldable pub after_changes : List Edit → List Entry → List Entry
after_changes [] q = q
after_changes ((p, n) ∷ cs) q = after_changes cs (set_qty p n q)

abbrev has_key : ℕ → List Entry → Bool
has_key p es = any (λ e. e.key == p) es

abbrev pub Distinct : List Entry → Type 0
Distinct [] = Unit
Distinct (e ∷ es) = (has_key e.key es ≡ false) × Distinct es

has_key-set_entry :
    (p k n : ℕ) (es : List Entry) → (k == p) ≡ false → has_key p (set_entry k n es) ≡ has_key p es
unfolding set_entry
has_key-set_entry p k n [] h = ground (arith, h)
has_key-set_entry p k n (e ∷ es) h = ground (arith, h, has_key-set_entry p k n es h)

set_entry-Distinct : (p n : ℕ) (es : List Entry) → Distinct es → Distinct (set_entry p n es)
unfolding set_entry
set_entry-Distinct p n [] d = (refl, tt)
set_entry-Distinct p n (e ∷ es) d = elim (Bool-cases (e.key == p)) [
  | inl h ↦ rw h d
  | inr h ↦
      rw h (has_key-set_entry e.key p n es (ground (arith, h)) ∙ d.0, set_entry-Distinct p n es d.1)
]

pub after_changes-Distinct :
    (cs : List Edit) (es : List Entry) → Distinct es → Distinct (after_changes cs es)
unfolding after_changes set_qty
after_changes-Distinct [] es d = d
after_changes-Distinct ((p, n) ∷ cs) es d =
    after_changes-Distinct cs (set_entry p (at_least_zero n) es)
      (set_entry-Distinct p (at_least_zero n) es d)

-- The price of a product in a list; 0 for one that is not there.
abbrev pub price_of : ℕ → List ProductRow → ℕ
price_of k [] = 0
price_of k (p ∷ ps) = if p.id == k then p.unit_price_cents else price_of k ps

abbrev names_row : ℕ → List ProductRow → Bool
names_row k ps = any (λ p. p.id == k) ps

-- `id` is the primary key of `products`.
abbrev pub IsKeyed : List ProductRow → Type 0
IsKeyed [] = Unit
IsKeyed (p ∷ ps) = (names_row p.id ps ≡ false) × IsKeyed ps

-- The page lists the products of the table, with their prices.
abbrev pub Lists : List Product → List ProductRow → Type 0
Lists [] [] = Unit
Lists (p ∷ ps) (r ∷ rs) = (p.id ≡ r.id) × (p.unit_price_cents ≡ r.unit_price_cents) × Lists ps rs
Lists [] (r ∷ rs) = ⊥
Lists (p ∷ ps) [] = ⊥

quantity_of-none : (k : ℕ) (es : List Entry) → has_key k es ≡ false → quantity_of k es ≡ 0
unfolding quantity_of
quantity_of-none k [] h = refl
quantity_of-none k (e ∷ es) h = ground (arith, h, quantity_of-none k es)

-- What an entry adds to the total.
abbrev share : Entry → ProductRow → ℕ
share e r = if e.key == r.id then e.quantity * r.unit_price_cents else 0

share-none :
    (e : Entry) (rs : List ProductRow) → names_row e.key rs ≡ false → sum_by (share e) rs ≡ 0
share-none e [] h = refl
share-none e (r ∷ rs) h = ground (arith, h, share-none e rs)

share_rest :
    (e : Entry) (r : ProductRow) (rs : List ProductRow)
    → names_row r.id rs ≡ false
    → (r.id == e.key) ≡ true
    → sum_by (share e) rs ≡ 0
share_rest e r rs h k =
    share-none e rs (subst (λ n. names_row n rs ≡ false) ((==_iff r.id e.key).0 k) h)

sum-share :
    (e : Entry) (rs : List ProductRow)
    → IsKeyed rs
    → sum_by (share e) rs ≡ e.quantity * price_of e.key rs
sum-share e [] d = omega arith
sum-share e (r ∷ rs) d = ground (arith, sum-share e rs d.1, share_rest e r rs d.0)

quantity_of-cons :
    (p : ℕ) (e : Entry) (es : List Entry)
    → quantity_of p (e ∷ es) ≡ (if e.key == p then e.quantity else quantity_of p es)
unfolding quantity_of
quantity_of-cons p e es = refl

-- The total of the page is the sum over the entries.
page_total-cons :
    (e : Entry) (es : List Entry) (ps : List Product) (rs : List ProductRow)
    → Lists ps rs
    → has_key e.key es ≡ false
    → page_total ps (e ∷ es) ≡ sum_by (share e) rs + page_total ps es
unfolding page_total
page_total-cons e es [] [] l h = refl
page_total-cons e es [] (r ∷ rs) l h = absurd l
page_total-cons e es (p ∷ ps) [] l h = absurd l
page_total-cons e es (p ∷ ps) (r ∷ rs) (same, price, l) h =
    let rest = page_total-cons e es ps rs l h in
    let none_left = quantity_of-none e.key es h in
    elim (Bool-cases (e.key == r.id)) [
      | inl k ↦
          let here = (==_iff e.key r.id).0 k in
          rw
            (
              quantity_of-cons p.id e es,
              same,
              k,
              price,
              subst (λ n. quantity_of n es ≡ 0) here none_left,
            )
            (omega (arith, rest))
      | inr k ↦ rw (quantity_of-cons p.id e es, same, k, price) (omega (arith, rest))
    ]

page_total-empty : (ps : List Product) → page_total ps [] ≡ 0
unfolding page_total quantity_of
page_total-empty [] = refl
page_total-empty (p ∷ ps) = omega (arith, page_total-empty ps)

abbrev pub charge : List ProductRow → Line → ℕ
charge rs l = l.quantity * price_of l.product_id rs

pub page_total_lem :
    (q : List Entry) (ps : List Product) (rs : List ProductRow)
    → Lists ps rs
    → IsKeyed rs
    → Distinct q
    → page_total ps q ≡ sum_by (charge rs) (items_of q)
unfolding items_of
page_total_lem [] ps rs l k d = page_total-empty ps
page_total_lem (e ∷ es) ps rs l k d =
    ground
      (arith, page_total-cons e es ps rs l d.0, sum-share e rs k, page_total_lem es ps rs l k d.1)

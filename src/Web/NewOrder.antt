-- ===== src/Web/NewOrder.antt =====
-- apps/web/app/new/page.tsx. Product ids are UUIDs, as numbers; the quantities that the inputs report
-- are integers.
pub mod Totals
pub mod Charged
use ecommerce_orderflow.Prelude.{
  ℕ, ℤ, pos, negsuc, ◌+◌, ◌*◌, String, List, [], ◌∷◌, map, Bool, true, false, ◌&&◌, ◌||◌, not,
  Option, none, some, filter, any, ltb, ◌==◌, sum_by, if◌then◌else◌,
}
use ecommerce_orderflow.Inventory.Service.Record.{Line}
use ecommerce_orderflow.Web.Detail.{CombinedError, error_text}

-- The result of the query `ProductsList`. `available` is a column of a view, and may be null.
pub record Product : Type 0 where
  pub id : ℕ
  pub name : String
  pub description : Option String
  pub unit_price_cents : ℕ

pub record Availability : Type 0 where
  pub product_id : ℕ
  pub available : Option ℤ

-- The object `quantities`: its entries in the order of insertion.
pub record Entry : Type 0 where
  pub key : ℕ
  pub quantity : ℕ

-- `Math.max(0, qty)`
abbrev pub at_least_zero : ℤ → ℕ
at_least_zero (pos n) = n
at_least_zero (negsuc n) = 0

-- `{ ...q, [productId]: n }`
unfoldable pub set_entry : ℕ → ℕ → List Entry → List Entry
set_entry p n [] = record { key = p; quantity = n } ∷ []
set_entry p n (e ∷ es) =
    let rest = set_entry p n es in if e.key == p then record e { quantity = n } ∷ es else e ∷ rest

-- `setQty`
unfoldable pub set_qty : ℕ → ℤ → List Entry → List Entry
unfolding set_entry
set_qty p qty q = set_entry p (at_least_zero qty) q

-- `quantities[p] ?? 0`
unfoldable pub quantity_of : ℕ → List Entry → ℕ
quantity_of p [] = 0
quantity_of p (e ∷ es) = if e.key == p then e.quantity else quantity_of p es

abbrev pub line_of : Entry → Line
line_of e = record { product_id = e.key; quantity = e.quantity }

-- `items`
unfoldable pub items_of : List Entry → List Line
items_of q = map line_of (filter (λ e. ltb 0 e.quantity) q)

-- `totalCents`
unfoldable pub page_total : List Product → List Entry → ℕ
unfolding quantity_of
page_total products q = sum_by (λ p. quantity_of p.id q * p.unit_price_cents) products

abbrev or_zero : Option ℤ → ℤ
or_zero none = pos 0
or_zero (some n) = n

abbrev mentions : ℕ → List Availability → Bool
mentions p ss = any (λ a. a.product_id == p) ss

-- `availableByProduct.get(p) ?? 0`: of a repeated key a `Map` keeps the last value.
unfoldable pub available_of : ℕ → List Availability → ℤ
available_of p [] = pos 0
available_of p (s ∷ ss) =
    let rest = available_of p ss in
    if s.product_id == p && not (mentions p ss) then or_zero s.available else rest

-- `(availableByProduct.get(p) ?? 0) <= 0`
abbrev pub is_sold_out : ℤ → Bool
is_sold_out (pos n) = not (ltb 0 n)
is_sold_out (negsuc n) = true

-- A row of the table: a product, its stock or none when it is out, and its input.
pub record ProductLine : Type 0 where
  pub name : String
  pub available : Option ℤ
  pub unit_price_cents : ℕ
  pub disabled : Bool
  pub max : ℤ
  pub value : ℕ

abbrev pub product_line : List Availability → List Entry → Product → ProductLine
product_line stock q p = record {
  name = p.name;
  available =
      if is_sold_out (available_of p.id stock) then none else some (available_of p.id stock);
  unit_price_cents = p.unit_price_cents;
  disabled = is_sold_out (available_of p.id stock);
  max = available_of p.id stock;
  value = quantity_of p.id q;
}

-- The page once its query has answered; `busy` while an order is being placed.
pub record NewOrderPage : Type 0 where
  pub products : List ProductLine
  pub total_cents : ℕ
  pub submit_disabled : Bool

abbrev pub has_no_items : List Line → Bool
has_no_items [] = true
has_no_items (l ∷ ls) = false

unfoldable pub new_order_page : List Product → List Availability → Bool → List Entry → NewOrderPage
unfolding items_of page_total available_of quantity_of
new_order_page products stock busy q = record {
  products = map (product_line stock q) products;
  total_cents = page_total products q;
  submit_disabled = has_no_items (items_of q) || busy;
}

-- What `submit` leaves: an error's text, or the order that the page goes to.
pub data Submitted : Type 0 where
  submit_error : String → Submitted
  pushed : String → Submitted
  nothing_done : Submitted

abbrev pub submitted : Option CombinedError → Option String → Submitted
submitted (some e) placed = submit_error (error_text e)
submitted none (some order) = pushed order
submitted none none = nothing_done

-- ===== src/Web/OrderList.antt =====
-- apps/web/app/page.tsx.
use ecommerce_orderflow.Prelude.{
  ℕ, String, List, [], map, Bool, true, false, ◌&&◌, not, Option, none, some, sum_by, length, ◌==◌,
  if◌then◌else◌,
}
use ecommerce_orderflow.Domain.Transitions.{OrderStatus}

-- An order of the query `OrdersList`, with the quantities of its items.
pub record ListedOrder : Type 0 where
  pub id : String
  pub customer_name : String
  pub status : OrderStatus
  pub quantities : List ℕ
  pub total_cents : ℕ

-- The text at the top: a count, with its plural, or that the query is under way.
pub data CountLabel : Type 0 where
  refreshing : CountLabel
  one_order : CountLabel
  many_orders : ℕ → CountLabel

pub record OrderLine : Type 0 where
  pub id : String
  pub customer_name : String
  pub status : OrderStatus
  pub item_count : ℕ
  pub total_cents : ℕ

pub record OrderTable : Type 0 where
  pub label : CountLabel
  pub rows : List OrderLine
  pub no_orders_yet : Bool

pub data ListPage : Type 0 where
  list_failed : String → ListPage
  listed : OrderTable → ListPage

abbrev pub order_line : ListedOrder → OrderLine
order_line o = record {
  id = o.id;
  customer_name = o.customer_name;
  status = o.status;
  item_count = sum_by (λ n. n) o.quantities;
  total_cents = o.total_cents;
}

abbrev pub count_label : Bool → ℕ → CountLabel
count_label true n = refreshing
count_label false n = if n == 1 then one_order else many_orders n

-- `data?.orders ?? []`
abbrev pub orders_or_none : Option (List ListedOrder) → List ListedOrder
orders_or_none none = []
orders_or_none (some os) = os

abbrev pub order_table : Bool → List ListedOrder → OrderTable
order_table fetching os = record {
  label = count_label fetching (length os);
  rows = map order_line os;
  no_orders_yet = not fetching && length os == 0;
}

unfoldable pub orders_page : Option String → Bool → Option (List ListedOrder) → ListPage
orders_page (some message) fetching loaded = list_failed message
orders_page none fetching loaded = listed (order_table fetching (orders_or_none loaded))

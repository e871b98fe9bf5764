-- ===== src/Web/Tests.antt =====
-- Runs of the pages of apps/web, and the theorems at concrete inputs.
use ecommerce_orderflow.Prelude.{
  ◌≡◌, refl, ◌↔◌, String, List, [], ◌∷◌, any, true, false, none, some, pos, negsuc,
}
use ecommerce_orderflow.Runtime.{ok}
use ecommerce_orderflow.Domain.Transitions.{
  OrderStatus, shipped, cancel, same_action, customer, business_admin,
}
use ecommerce_orderflow.Domain.Gate.{Permits}
use ecommerce_orderflow.Orders.Tables.{Orders}
use ecommerce_orderflow.Orders.Repository.{find_products}
use ecommerce_orderflow.Orders.Placement.{PricedLine, price_in, total_cents}
use ecommerce_orderflow.Web.Detail.{
  Query, DetailState, OrderDetail, OrderView, order_shown, order_view, order_detail_page,
}
use ecommerce_orderflow.Web.Detail.Offers.{order_detail_page-offers_iff}
use ecommerce_orderflow.Web.NewOrder.{Product, set_entry, set_qty, items_of, page_total}
use ecommerce_orderflow.Web.NewOrder.Totals.{Edit, after_changes}
use ecommerce_orderflow.Web.NewOrder.Charged.{page_total-total_cents}
use ecommerce_orderflow.Web.Session.{
  Token, Exchange, granted, refresh_access_token, is_current, jwt,
}
use ecommerce_orderflow.Web.Session.Freshness.{Renewal, jwt-Renewal}

abbrev detail : OrderDetail
detail = record {
  id = "1";
  customer_name = "Ada";
  status = shipped;
  total_cents = 900;
  items = [];
  events = [];
}

abbrev answered : Query
answered = record { error = none; fetching = false; loaded = some (some detail) }

abbrev untouched : DetailState
untouched = record { action_error = none; refetches = 0 }

abbrev admin_view : OrderView
admin_view = order_view (some business_admin) false untouched detail

admin_page :
    order_detail_page answered (some business_admin) false untouched ≡ order_shown admin_view
unfolding order_detail_page
admin_page = refl

order_detail_page-offers_iff_example :
    (any (λ b. same_action b.action cancel) admin_view.buttons ≡ true)
    ↔ ((t : OrderStatus) × Permits business_admin shipped cancel t)
order_detail_page-offers_iff_example =
    order_detail_page-offers_iff answered business_admin false untouched admin_view cancel
      admin_page

-- Two products; the first is set to -1, then to 2, the second to 3.
abbrev listed : List Product
listed =
    record { id = 7; name = "Lamp"; description = none; unit_price_cents = 900 }
    ∷ record { id = 8; name = "Desk"; description = some "Oak"; unit_price_cents = 50 }
    ∷ []

abbrev catalogue : Orders
catalogue = record {
  db = record {
    users = 4 ∷ [];
    products =
        record { id = 7; sku = "LAMP"; unit_price_cents = 900 }
        ∷ record { id = 8; sku = "DESK"; unit_price_cents = 50 }
        ∷ [];
    orders = [];
    order_items = [];
    order_events = [];
    idempotency_keys = [];
    processed_events = [];
  };
  metrics = record { transitions = []; orders_placed = [] };
  faults = [];
}

abbrev changes : List Edit
changes = (7, negsuc 0) ∷ (7, pos 2) ∷ (8, pos 3) ∷ []

abbrev priced_lines : List PricedLine
priced_lines =
    record { product_id = 7; quantity = 2; unit_price_cents = 900 }
    ∷ record { product_id = 8; quantity = 3; unit_price_cents = 50 }
    ∷ []

changes_priced : (price_in (items_of (after_changes changes [])) catalogue).0 ≡ ok priced_lines
unfolding price_in find_products items_of after_changes set_qty set_entry
changes_priced = refl

page_total-total_cents_example :
    page_total listed (after_changes changes []) ≡ total_cents priced_lines
page_total-total_cents_example =
    page_total-total_cents changes listed catalogue priced_lines (refl, refl, (refl, refl, tt))
      (refl, (refl, tt)) changes_priced

abbrev old_token : Token
old_token = record {
  access_token = some "old";
  refresh_token = some "r1";
  id_token = none;
  expires_at = some 1000;
  role = some customer;
  error = none;
}

abbrev granting : String → Exchange
granting t = granted (record { access_token = "new"; expires_in = 3600; refresh_token = none })

jwt-Renewal_example :
    Renewal granting 999000 999 old_token (jwt granting 999000 999 none none old_token)
jwt-Renewal_example = jwt-Renewal granting 999000 999 none old_token

token_renewed :
    jwt granting 999000 999 none none old_token
    ≡ record old_token { access_token = some "new"; expires_at = some 4599 }
unfolding jwt refresh_access_token is_current
token_renewed = refl

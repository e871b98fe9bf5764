-- ===== src/Inventory/Tests/Shop.antt =====
-- A small stock, and the inventory service running on it.
use ecommerce_orderflow.Prelude.{◌≡◌, List, [], ◌∷◌, none, some, arith, pos}
use ecommerce_orderflow.Runtime.{ok, healthy, commit_refused}
use ecommerce_orderflow.Inventory.Rules.{alert_level_for}
use ecommerce_orderflow.Inventory.Tables.{
  StockItemRow, ReservationRow, MovementKind, held, released, committed, Inventory,
}
use ecommerce_orderflow.Inventory.Service.Record.{Line}
use ecommerce_orderflow.Inventory.Service.Settle.{release_in, commit_in}
use ecommerce_orderflow.Inventory.Stock.Consistency.{IsConsistent}
use ecommerce_orderflow.Inventory.Stock.Calls.{run-IsConsistent}
use ecommerce_orderflow.Inventory.Books.{Books}
use ecommerce_orderflow.Inventory.Books.Runs.{run-Books}
use ecommerce_orderflow.Inventory.Stock.Releasing.{lower_all}
use ecommerce_orderflow.Inventory.Stock.Committing.{settle_all}
use ecommerce_orderflow.Inventory.Stock.Release.{Settles, release_in-Settles, commit_in-Settles}
use ecommerce_orderflow.Inventory.Serving.{Request, reserves, confirms, delivers, sweeps, run}
use ecommerce_orderflow.Prelude.{refl}
use ecommerce_orderflow.Prelude.{inr}

abbrev pub lamp : StockItemRow
lamp = record {
  product_id = 7;
  sku = "LAMP";
  on_hand = 10;
  reserved = 3;
  reorder_level = 4;
  reorder_qty = 20;
}

-- Order 1 holds three lamps; order 2 gave up two.
abbrev pub hold : ReservationRow
hold = record { order_id = 1; product_id = 7; quantity = 3; status = held; expires_at = some 900 }

abbrev given_up : ReservationRow
given_up = record {
  order_id = 2;
  product_id = 7;
  quantity = 2;
  status = released;
  expires_at = some 800;
}

abbrev pub shop : Inventory
shop = record {
  db = record {
    stock_items = lamp ∷ [];
    reservations = hold ∷ given_up ∷ [];
    stock_movements = [];
    stock_alerts = [];
    processed_events = [];
  };
  metrics = record { reservations = []; movements = [] };
  faults = [];
}

pub shop-IsConsistent : IsConsistent shop.db
shop-IsConsistent = ground arith

abbrev pub four_lamps : Line
four_lamps = record { product_id = 7; quantity = 4 }

abbrev day : List Request
day =
    reserves 300 1000 (record { order_id = 5; items = four_lamps ∷ four_lamps ∷ [] })
    ∷ reserves 300 1000 (record { order_id = 6; items = four_lamps ∷ [] })
    ∷ confirms 6
    ∷ delivers "e1" (record { order_id = some 6; to_status = "SHIPPED" })
    ∷ sweeps 5000 1
    ∷ []

run-IsConsistent_example :
    IsConsistent (run day (record shop { faults = healthy ∷ commit_refused ∷ [] })).db
run-IsConsistent_example =
    run-IsConsistent day (record shop { faults = healthy ∷ commit_refused ∷ [] }) shop-IsConsistent

-- The shop, with the movement that brought the lamp to its counts.
abbrev audited : Inventory
audited = record shop {
  db = record shop.db {
    stock_movements =
        record {
          product_id = 7;
          order_id = some 1;
          kind = MovementKind.reserve;
          quantity = 3;
          on_hand_after = pos 10;
          reserved_after = pos 3;
          reason = none;
        }
        ∷ [];
  };
}

audited-Books : Books audited.db
unfolding alert_level_for
audited-Books = record { keyed = (refl, tt); booked = (inr (_, refl, refl, refl, refl), tt) }

run-Books_example : Books (run day (record audited { faults = healthy ∷ commit_refused ∷ [] })).db
run-Books_example =
    run-Books day (record audited { faults = healthy ∷ commit_refused ∷ [] }) audited-Books

release_in-Settles_example :
    (w' : Inventory) × (release_in 1 "order cancelled" shop ≡ (ok 1, w'))
    × Settles 1 released (lower_all (hold ∷ [])) shop w'
release_in-Settles_example = release_in-Settles 1 "order cancelled" shop shop-IsConsistent

commit_in-Settles_example :
    (w' : Inventory) × (commit_in 1 shop ≡ (ok 1, w'))
    × Settles 1 committed (settle_all (hold ∷ [])) shop w'
commit_in-Settles_example = commit_in-Settles 1 shop shop-IsConsistent

-- ===== src/Inventory/Repository.antt =====
-- apps/inventory-service/src/db/inventory.repository.ts: each statement as a call on the database,
-- with the constraints of hasura/migrations/inventory that can make it throw. A transaction runs
-- alone, so `for update` leaves no trace; `order by` does.
pub mod Rows
use ecommerce_orderflow.Prelude.{
  ℕ, String, str_eq, ◌+◌, ◌++◌, List, [], ◌∷◌, map, Bool, true, false, ◌&&◌, ◌||◌, not, Option,
  none, some, ℤ, pos, ◌==◌, ltb, if◌then◌else◌, any, filter, find, length, sort_by,
}
use ecommerce_orderflow.Runtime.{
  Result, ok, err, World, Call, pure, throw, gets, ◌>>=◌, with_transaction,
}
use ecommerce_orderflow.Inventory.Errors.{Thrown, other_error}
use ecommerce_orderflow.Inventory.Tables.{
  StockItemRow, ReservationRow, ReservationStatus, held, is_held, Movement, AlertRow, open_alert,
  resolved, is_open, Db, Metrics, Inventory,
}
use Rows.{
  fits_int4, is_quantity, is_expired, distinct, take, update_items, shift_reserved, shift_on_hand,
}

abbrev pub Tx : Type 0 → Type 0
Tx A = Call Inventory Thrown A

-- The next database of a statement that ran.
abbrev put : Db → Tx (Unit {0})
put d w = (ok tt, record w { db = d })

unfoldable pub transaction : {A : Type 0} → Tx A → Tx A
unfolding with_transaction
transaction = with_transaction other_error

unfoldable pub lock_items : List ℕ → Tx (List StockItemRow)
lock_items product_ids = gets λ w.
    sort_by (λ r. r.product_id)
      (filter (λ r. any (λ p. p == r.product_id) product_ids) w.db.stock_items)

unfoldable pub get_item : ℕ → Tx (Option StockItemRow)
get_item product_id = gets λ w. find (λ r. r.product_id == product_id) w.db.stock_items

-- A row that would violate a constraint fails the statement.
abbrev store_items : Option (List StockItemRow) → Tx (Unit {0})
store_items none w = (err other_error, w)
store_items (some items) w = (ok tt, record w { db = record w.db { stock_items = items } })

unfoldable pub adjust_reserved : ℕ → ℤ → Tx (Unit {0})
unfolding update_items shift_reserved
adjust_reserved product_id delta w =
    store_items (update_items product_id (shift_reserved delta) w.db.stock_items) w

unfoldable pub adjust_on_hand : ℕ → ℤ → Tx (Unit {0})
unfolding update_items shift_on_hand
adjust_on_hand product_id delta w =
    store_items (update_items product_id (shift_on_hand delta) w.db.stock_items) w

abbrev pub has_item : ℕ → Db → Bool
has_item p d = any (λ r. r.product_id == p) d.stock_items

abbrev pub has_reservation : ℕ → ℕ → Db → Bool
has_reservation o p d = any (λ v. v.order_id == o && v.product_id == p) d.reservations

-- The check on the quantity comes first, then the unique key, then the foreign key.
unfoldable pub insert_reservation : ℕ → ℕ → ℕ → ℕ → Tx Bool
unfolding is_quantity
insert_reservation o p q expires_at w =
    if not (is_quantity q)
    then (err other_error, w)
    else if has_reservation o p w.db
    then (ok false, w)
    else if has_item p w.db
    then (ok true, record w { db = record w.db { reservations = w.db.reservations ++ row ∷ [] } })
    else (err other_error, w)
  where
    row : ReservationRow
    row = record {
      order_id = o;
      product_id = p;
      quantity = q;
      status = held;
      expires_at = some expires_at;
    }

abbrev pub holds : ℕ → ReservationRow → Bool
holds o v = v.order_id == o && is_held v.status

unfoldable pub find_held_by_order : ℕ → Tx (List ReservationRow)
find_held_by_order o = gets λ w. sort_by (λ v. v.product_id) (filter (holds o) w.db.reservations)

unfoldable pub set_reservation_status : ℕ → ReservationStatus → Tx (Unit {0})
set_reservation_status o st w = (
  ok tt,
  record w {
    db = record w.db {
      reservations = map (λ v. if holds o v then record v { status = st } else v) w.db.reservations;
    };
  },
)

unfoldable pub confirm_reservation : ℕ → Tx ℕ
confirm_reservation o w = (
  ok (length (filter (holds o) w.db.reservations)),
  record w {
    db = record w.db {
      reservations =
          map (λ v. if holds o v then record v { expires_at = none } else v) w.db.reservations;
    };
  },
)

-- `now` is the database's clock, in milliseconds.
unfoldable pub is_still_expired : ℕ → ℕ → Tx Bool
unfolding is_expired
is_still_expired now o =
    gets
      λ w. ltb 0 (length (filter (λ v. holds o v && is_expired now v.expires_at) w.db.reservations))

-- `limit` of the source, 100 by default. `distinct` has no order in SQL; here the first rows win.
unfoldable pub find_expired_order_ids : ℕ → ℕ → Tx (List ℕ)
unfolding is_expired distinct take
find_expired_order_ids now limit = gets λ w. take limit (
    distinct (
      map (λ v. v.order_id)
        (filter (λ v. is_held v.status && is_expired now v.expires_at) w.db.reservations)))

unfoldable pub insert_movement : Movement → Tx (Unit {0})
unfolding fits_int4
insert_movement m w =
    if fits_int4 (pos m.quantity)
      && (fits_int4 m.on_hand_after && (fits_int4 m.reserved_after && has_item m.product_id w.db))
    then put (record w.db { stock_movements = w.db.stock_movements ++ m ∷ [] }) w
    else (err other_error, w)

-- `text` keys: the receipt of a delivery.
unfoldable pub mark_event_processed : String → Tx Bool
mark_event_processed event_id w =
    if any (λ e. str_eq e event_id) w.db.processed_events then (ok false, w) else (
      ok true,
      record w { db = record w.db { processed_events = w.db.processed_events ++ event_id ∷ [] } },
    )

abbrev pub has_open_alert : ℕ → Db → Bool
has_open_alert p d = any (λ a. a.product_id == p && is_open a.status) d.stock_alerts

-- `a.status` is the column's default, `OPEN`. The partial unique index covers open alerts alone.
unfoldable pub insert_alert : AlertRow → Tx Bool
unfolding fits_int4
insert_alert a w =
    if not (fits_int4 a.available && (fits_int4 (pos a.reorder_level) && fits_int4 a.suggested_qty))
    then (err other_error, w)
    else if has_open_alert a.product_id w.db
    then (ok false, w)
    else if has_item a.product_id w.db
    then (ok true, record w { db = record w.db { stock_alerts = w.db.stock_alerts ++ a ∷ [] } })
    else (err other_error, w)

unfoldable pub resolve_alert : ℕ → Tx (Unit {0})
resolve_alert p w =
    put
      (record w.db {
        stock_alerts =
            map
              (λ a.
                if a.product_id == p && is_open a.status then record a { status = resolved } else a)
              w.db.stock_alerts;
      })
      w

unfoldable pub count_open_alerts : Tx ℕ
count_open_alerts = gets λ w. length (filter (λ a. is_open a.status) w.db.stock_alerts)

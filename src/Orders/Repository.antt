-- ===== src/Orders/Repository.antt =====
-- apps/workflow-service/src/db/order.repository.ts: each statement as a call on the database, with
-- the constraints of hasura/migrations/default that can make it throw.
use ecommerce_orderflow.Prelude.{
  ℕ, ◌+◌, String, str_eq, ◌++◌, List, [], ◌∷◌, map, Bool, true, false, ◌&&◌, not, Option, none,
  some, ◌==◌, ltb, leb, if◌then◌else◌, any, filter, find,
}
use ecommerce_orderflow.Runtime.{ok, err, Call, gets, pure, throw, with_transaction}
use ecommerce_orderflow.Domain.Transitions.{OrderStatus, pending}
use ecommerce_orderflow.Orders.Errors.{Thrown, other_error}
use ecommerce_orderflow.Orders.Tables.{
  OrderRow, ProductRow, OrderItemRow, OrderEventRow, OrderResult, KeyStatus, in_progress, succeeded,
  failed, IdempotencyRow, OrderDb, Orders,
}

abbrev pub Tx : Type 0 → Type 0
Tx A = Call Orders Thrown A

-- The largest `integer`, 2^31 - 1.
abbrev pub int4_max : ℕ
int4_max = 2147483647

unfoldable pub transaction : {A : Type 0} → Tx A → Tx A
unfolding with_transaction
transaction = with_transaction other_error

abbrev pub has_id : ℕ → OrderRow → Bool
has_id id o = o.id == id

unfoldable pub get_order_for_update : ℕ → Tx (Option OrderRow)
get_order_for_update id = gets λ w. find (has_id id) w.db.orders

unfoldable pub get_order_by_id : ℕ → Tx (Option OrderRow)
get_order_by_id id = gets λ w. find (has_id id) w.db.orders

abbrev pub advanced : ℕ → OrderStatus → OrderRow → OrderRow
advanced id status o =
    if has_id id o then record o { status = status; version = o.version + 1 } else o

-- `returning version`: the first row's, or a `TypeError` when no row matched.
abbrev pub returned_version : Option OrderRow → Tx ℕ
returned_version none = throw other_error
returned_version (some o) = pure o.version

-- The update throws when a new version is out of range.
unfoldable pub update_status : ℕ → OrderStatus → Tx ℕ
update_status id status w =
    if any (λ o. has_id id o && leb int4_max o.version) w.db.orders
    then (err other_error, w)
    else returned_version (find (has_id id) (map (advanced id status) w.db.orders))
        (record w { db = record w.db { orders = map (advanced id status) w.db.orders } })

abbrev pub has_order : ℕ → OrderDb → Bool
has_order id d = any (has_id id) d.orders

abbrev pub has_user : ℕ → OrderDb → Bool
has_user u d = any (λ x. x == u) d.users

-- `actor_id` may be null; otherwise it references a user.
abbrev pub known_actor : Option ℕ → OrderDb → Bool
known_actor none d = true
known_actor (some u) d = has_user u d

unfoldable pub insert_event : OrderEventRow → Tx (Unit {0})
insert_event e w =
    if has_order e.order_id w.db && known_actor e.actor_id w.db
    then (ok tt, record w { db = record w.db { order_events = w.db.order_events ++ e ∷ [] } })
    else (err other_error, w)

unfoldable pub find_products : List ℕ → Tx (List ProductRow)
find_products ids = gets λ w. filter (λ p. any (λ i. i == p.id) ids) w.db.products

abbrev pub new_order : ℕ → ℕ → ℕ → OrderRow
new_order customer_id total_cents order_id = record {
  id = order_id;
  customer_id = customer_id;
  status = pending;
  total_cents = total_cents;
  version = 1;
}

-- The total must fit, the id must be new, and the customer must be a user.
unfoldable pub create_order : ℕ → ℕ → ℕ → Tx OrderRow
create_order customer_id total_cents order_id w =
    if leb total_cents int4_max && (not (has_order order_id w.db) && has_user customer_id w.db)
    then (
      ok (new_order customer_id total_cents order_id),
      record w {
        db = record w.db {
          orders = w.db.orders ++ new_order customer_id total_cents order_id ∷ [];
        };
      },
    )
    else (err other_error, w)

-- The columns that the source selects.
pub record OrderedItem : Type 0 where
  pub product_id : ℕ
  pub quantity : ℕ

unfoldable pub get_order_items : ℕ → Tx (List OrderedItem)
get_order_items order_id = gets λ w.
    map (λ i. record { product_id = i.product_id; quantity = i.quantity })
      (filter (λ i. i.order_id == order_id) w.db.order_items)

unfoldable pub insert_item : OrderItemRow → Tx (Unit {0})
insert_item i w =
    if has_order i.order_id w.db
      && (any (λ p. p.id == i.product_id) w.db.products
          && (ltb 0 i.quantity && (leb i.quantity int4_max && leb i.unit_price_cents int4_max)))
    then (ok tt, record w { db = record w.db { order_items = w.db.order_items ++ i ∷ [] } })
    else (err other_error, w)

-- The outcome of `claimIdempotencyKey`.
pub data Claim : Type 0 where
  claimed conflict claim_in_progress : Claim
  replay : Option OrderResult → Claim

abbrev pub same_key : String → ℕ → String → IdempotencyRow → Bool
same_key operation actor key r =
    str_eq r.operation operation && (r.actor_id == actor && str_eq r.key key)

abbrev pub claim_by_status : KeyStatus → Option OrderResult → Claim
claim_by_status succeeded response = replay response
claim_by_status in_progress response = claim_in_progress
claim_by_status failed response = claimed

unfoldable pub earlier_claim : String → IdempotencyRow → Claim
earlier_claim print r =
    if not (str_eq r.fingerprint print) then conflict else claim_by_status r.status r.response

abbrev pub fresh_key : String → ℕ → String → String → IdempotencyRow
fresh_key operation actor key print = record {
  operation = operation;
  actor_id = actor;
  key = key;
  fingerprint = print;
  status = in_progress;
  response = none;
}

abbrev pub claim_row : IdempotencyRow → Option IdempotencyRow → Tx Claim
claim_row new (some r) w = (ok (earlier_claim new.fingerprint r), w)
claim_row new none w = (
  ok claimed,
  record w { db = record w.db { idempotency_keys = w.db.idempotency_keys ++ new ∷ [] } },
)

unfoldable pub claim_idempotency_key : String → ℕ → String → String → Tx Claim
unfolding earlier_claim
claim_idempotency_key operation actor key print w =
    claim_row (fresh_key operation actor key print)
      (find (same_key operation actor key) w.db.idempotency_keys) w

unfoldable pub complete_idempotency_key : String → ℕ → String → OrderResult → Tx (Unit {0})
complete_idempotency_key operation actor key response w = (
  ok tt,
  record w {
    db = record w.db {
      idempotency_keys =
          map
            (λ r.
              if same_key operation actor key r
              then record r { status = succeeded; response = some response }
              else r)
            w.db.idempotency_keys;
    };
  },
)

abbrev pub is_in_progress : KeyStatus → Bool
is_in_progress in_progress = true
is_in_progress succeeded = false
is_in_progress failed = false

-- One statement on the pool: a transaction of its own.
unfoldable pub fail_idempotency_key : String → ℕ → String → Tx (Unit {0})
fail_idempotency_key operation actor key = transaction λ w. (
  ok tt,
  record w {
    db = record w.db {
      idempotency_keys =
          map
            (λ r.
              if same_key operation actor key r && is_in_progress r.status
              then record r { status = failed }
              else r)
            w.db.idempotency_keys;
    };
  },
)

-- One statement on the pool: a transaction of its own.
unfoldable pub mark_event_processed : String → Tx Bool
mark_event_processed event_id = transaction λ w.
    if any (λ e. str_eq e event_id) w.db.processed_events then (ok false, w) else (
      ok true,
      record w { db = record w.db { processed_events = w.db.processed_events ++ event_id ∷ [] } },
    )

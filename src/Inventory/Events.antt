-- ===== src/Inventory/Events.antt =====
-- apps/inventory-service/src/events: the handler of the `order_events` trigger. An order id that is
-- no UUID makes PostgreSQL reject the query; here it is none.
use ecommerce_orderflow.Prelude.{
  ℕ, String, str_eq, Bool, true, false, Option, none, some, ltb, if◌then◌else◌,
}
use ecommerce_orderflow.Runtime.{throw, pure, ◌>>=◌}
use ecommerce_orderflow.Inventory.Errors.{other_error}
use ecommerce_orderflow.Inventory.Repository.{Tx, transaction, mark_event_processed}
use ecommerce_orderflow.Inventory.Service.Settle.{release_in, commit_in}

pub record OrderEventPayload : Type 0 where
  pub order_id : Option ℕ
  pub to_status : String

-- The `status` of the reply.
pub data Status : Type 0 where
  skipped released committed noop ignored : Status

abbrev pub release_for : Option ℕ → Tx Status
release_for none = throw other_error
release_for (some order) =
    release_in order "order cancelled" >>= λ n. pure (if ltb 0 n then released else noop)

abbrev pub commit_for : Option ℕ → Tx Status
commit_for none = throw other_error
commit_for (some order) = commit_in order >>= λ n. pure (if ltb 0 n then committed else noop)

-- The `switch` on `payload.toStatus`.
unfoldable pub apply_event : OrderEventPayload → Tx Status
apply_event payload =
    if str_eq payload.to_status "CANCELLED"
    then release_for payload.order_id
    else if str_eq payload.to_status "SHIPPED"
    then commit_for payload.order_id
    else pure ignored

abbrev pub when_fresh : OrderEventPayload → Bool → Tx Status
when_fresh payload false = pure skipped
when_fresh payload true = apply_event payload

unfoldable pub handle_in : String → OrderEventPayload → Tx Status
handle_in event_id payload = mark_event_processed event_id >>= when_fresh payload

unfoldable pub handle_order_event : String → OrderEventPayload → Tx Status
handle_order_event event_id payload = transaction (handle_in event_id payload)

-- `HasuraEventBody`, as far as `EventsController.orderEvent` reads it. `order_id` is the row's value
-- as a string, and `parse_uuid` is PostgreSQL's reading of it.
pub record HasuraEventBody : Type 0 where
  pub id : Option String
  pub order_id : Option String
  pub to_status : Option String

-- `a ?? b`
abbrev or_text : Option String → String → String
or_text none b = b
or_text (some a) b = a

unfoldable pub order_event : (String → Option ℕ) → HasuraEventBody → Tx Status
order_event parse_uuid body = handle_order_event (or_text body.id "unknown") (record {
  order_id = parse_uuid (or_text body.order_id "");
  to_status = or_text body.to_status "";
})

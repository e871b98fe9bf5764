-- ===== src/Orders/Edge.antt =====
-- What stands before the services of apps/workflow-service/src: common/session.ts with the schema of
-- orders/dto.ts, and the webhook of the folder events.

pub mod Sessions
use ecommerce_orderflow.Prelude.{
  ℕ, String, str_eq, Bool, true, false, Option, none, some, if◌then◌else◌,
}
use ecommerce_orderflow.Runtime.{Result, ok, err, pure, ◌>>=◌}
use ecommerce_orderflow.Domain.Transitions.{Role, customer, ops, business_admin}
use ecommerce_orderflow.Orders.Errors.{Thrown, unauthenticated}
use ecommerce_orderflow.Orders.Repository.{Tx, mark_event_processed}
use ecommerce_orderflow.Orders.Transition.{Session}

-- `HasuraActionBody.session_variables`, the two that the code reads; none is a missing one.
pub record SessionVariables : Type 0 where
  pub role : Option String
  pub user_id : Option String

-- `z.enum(ROLES)`
unfoldable pub parse_role : String → Option Role
parse_role s =
    if str_eq s "customer"
    then some customer
    else if str_eq s "ops"
    then some ops
    else if str_eq s "business_admin"
    then some business_admin
    else none

-- `z.string().uuid().nullish()`: `uuid` reads a UUID. The outer option is the parser's.
abbrev pub parse_user : (String → Option ℕ) → Option String → Option (Option ℕ)
parse_user uuid none = some none
parse_user uuid (some s) = user_read (uuid s)
  where
    user_read : Option ℕ → Option (Option ℕ)
    user_read none = none
    user_read (some u) = some (some u)

abbrev pub named_role : Option String → Option Role
named_role none = none
named_role (some s) = parse_role s

abbrev pub session_of : Option Role → Option (Option ℕ) → Result Thrown Session
session_of none u = err unauthenticated
session_of (some r) none = err unauthenticated
session_of (some r) (some u) = ok (record { role = r; user_id = u })

unfoldable pub parse_session : (String → Option ℕ) → SessionVariables → Result Thrown Session
unfolding parse_role
parse_session uuid vars = session_of (named_role vars.role) (parse_user uuid vars.user_id)

-- The outcome of the webhook's side effect, which is a stub.
pub data EventStatus : Type 0 where
  event_ok event_skipped : EventStatus

abbrev pub handled : Bool → Tx EventStatus
handled true = pure event_ok
handled false = pure event_skipped

unfoldable pub handle_order_event : String → Tx EventStatus
handle_order_event event_id = mark_event_processed event_id >>= handled

-- `HasuraEventRow` and `HasuraEventBody`, as far as `EventsController.orderEvent` reads them; none is a
-- missing value or null.
pub record HasuraEventRow : Type 0 where
  pub order_id : Option String
  pub to_status : Option String

pub record HasuraEventBody : Type 0 where
  pub id : String
  pub row : Option HasuraEventRow

-- `EventsController.orderEvent`. What it reads of the row goes to the log alone.
unfoldable pub order_event : HasuraEventBody → Tx EventStatus
order_event body = handle_order_event body.id

-- ===== src/Orders/Traffic.antt =====
-- A request to apps/workflow-service/src from its arrival: the throttler of
-- common/user-throttler.guard.ts, the guard of the secret, the handler, and what
-- observability/metrics.service.ts counts of them.
pub mod Counted
mod Tests
use ecommerce_orderflow.Prelude.{ℕ, String, List, [], ◌∷◌, Bool, true, false, Option}
use ecommerce_orderflow.Runtime.{ok, err}
use ecommerce_orderflow.Inventory.Service.Settle.{or_else}
use ecommerce_orderflow.Orders.Tables.{OrderResult}
use ecommerce_orderflow.Orders.Client.{System, on_orders}
use ecommerce_orderflow.Orders.Placement.{Env}
use ecommerce_orderflow.Orders.Guards.{Crypto, HandlerOutcome}
use ecommerce_orderflow.Orders.Dto.{Text, PlaceOrderBody, TransitionOrderBody}
use ecommerce_orderflow.Orders.Api.{
  Response, unauthorized, answered, Post, post_place_order, post_transition_order,
}

-- An observation of `orderflow_action_duration_seconds`, without its duration.
pub record Observation : Type 0 where
  pub route : String
  pub outcome : HandlerOutcome

-- The histogram and the counter `orderflow_throttled_total`, by their labels, the latest first.
pub record HttpMetrics : Type 0 where
  pub request_duration : List Observation
  pub throttled : List String

-- `req.route?.path ?? req.url`
pub record Target : Type 0 where
  pub path : Option String
  pub url : String

abbrev pub route_of : Target → String
route_of t = or_else t.path t.url

-- What the caller sees: the exception of the throttler, or what follows it.
pub data Reply : Type 0 where
  rate_limited : Reply
  passed : Response OrderResult → Reply

abbrev pub status_code : Reply → ℕ
status_code rate_limited = 429
status_code (passed unauthorized) = 401
status_code (passed (answered o (ok r))) = 201
status_code (passed (answered o (err e))) = e.status

-- `throwThrottlingException`
unfoldable pub throw_throttling_exception : Target → HttpMetrics → Reply × HttpMetrics
throw_throttling_exception t m = (rate_limited, record m { throttled = route_of t ∷ m.throttled })

abbrev pub observe : Target → Response OrderResult → HttpMetrics → HttpMetrics
observe t unauthorized m = m
observe t (answered o r) m = record m {
  request_duration = record { route = route_of t; outcome = o } ∷ m.request_duration;
}

-- What the service is configured with and takes from its surroundings.
pub record Site : Type 1 where
  pub crypto : Crypto
  pub action_secret : String
  pub text : Text

pub data Request : Type 0 where
  placement : Env → Post PlaceOrderBody → Request
  transition : Post TransitionOrderBody → Request

abbrev pub route_request : Site → Request → System → Response OrderResult × System
route_request site (placement env p) s =
    post_place_order site.crypto site.action_secret site.text env p s
route_request site (transition p) s =
    let (r, w) = post_transition_order site.crypto site.action_secret site.text p s.orders in
    (r, record s { orders = w })

-- A request, and whether the budget of its tracker admits it, which the throttler's storage knows.
pub record Arrival : Type 0 where
  pub admitted : Bool
  pub target : Target
  pub request : Request

abbrev pub respond :
    Target → Response OrderResult × System → HttpMetrics → Reply × (HttpMetrics × System)
respond t (r, s) m = (passed r, (observe t r m, s))

abbrev pub refuse : Reply × HttpMetrics → System → Reply × (HttpMetrics × System)
refuse (r, m) s = (r, (m, s))

abbrev pub after_throttler :
    Bool → Site → Target → Request → HttpMetrics → System → Reply × (HttpMetrics × System)
after_throttler false site t q m s = refuse (throw_throttling_exception t m) s
after_throttler true site t q m s = respond t (route_request site q s) m

unfoldable pub receive_request :
    Site → Arrival → HttpMetrics → System → Reply × (HttpMetrics × System)
unfolding throw_throttling_exception
receive_request site a m s = after_throttler a.admitted site a.target a.request m s

-- Requests one after another, with their replies.
unfoldable pub receive_all :
    Site → List Arrival → HttpMetrics → System → List Reply × (HttpMetrics × System)
unfolding receive_request
receive_all site [] m s = ([], (m, s))
receive_all site (a ∷ later) m s =
    let (r, (m', s')) = receive_request site a m s in
    let (rs, end) = receive_all site later m' s' in (r ∷ rs, end)

-- ===== src/Orders/Guards.antt =====
-- What runs before and around the handlers of apps/workflow-service/src: common/hasura-auth.guard.ts,
-- common/user-throttler.guard.ts and observability/metrics.interceptor.ts. The files of the same names in
-- apps/inventory-service/src have the same code. The storage of the throttler and the timer of the
-- histogram are the libraries' own.
pub mod Secret
pub mod Tracker
pub mod Budget
use ecommerce_orderflow.Prelude.{
  ℕ, String, str_eq, str_append, Bool, true, false, ◌&&◌, not, Option, none, some, ◌==◌, ltb,
  if◌then◌else◌,
}
use ecommerce_orderflow.Runtime.{Result, ok, err}
use ecommerce_orderflow.Inventory.Service.Settle.{or_else}
use ecommerce_orderflow.Orders.Errors.{ActionException}

-- What the guard takes from Node: `Buffer.from(…, "utf8")` with its `length`, and `timingSafeEqual`.
pub record Crypto : Type 1 where
  pub Buffer : Type 0
  pub utf8 : String → Buffer
  pub length : Buffer → ℕ
  pub timing_safe_equal : Buffer → Buffer → Bool

unfoldable pub matches_secret : Crypto → String → String → Bool
matches_secret crypto action_secret provided =
    let expected = crypto.utf8 action_secret in
    let actual = crypto.utf8 provided in
    (crypto.length expected == crypto.length actual) && crypto.timing_safe_equal expected actual

-- `canActivate`: the header `x-action-secret`, when it is no empty string. False is its
-- `UnauthorizedException`.
unfoldable pub can_activate : Crypto → String → Option String → Bool
unfolding matches_secret
can_activate crypto action_secret none = false
can_activate crypto action_secret (some secret) =
    not (str_eq secret "") && matches_secret crypto action_secret secret

-- `getTracker`: the session variable `x-hasura-user-id` of the body, and the address.
abbrev tracker_of : Option String → Bool → String → String
tracker_of ip true user = str_append "ip:" (or_else ip "unknown")
tracker_of ip false user = str_append "user:" user

unfoldable pub get_tracker : Option String → Option String → String
get_tracker none ip = str_append "ip:" (or_else ip "unknown")
get_tracker (some user) ip = tracker_of ip (str_eq user "") user

-- The label `outcome` of a request's duration.
pub data HandlerOutcome : Type 0 where
  outcome_ok client_error server_error : HandlerOutcome

-- `classify`, on the status of an exception of the error mappers; the guards' own never reach it.
unfoldable pub classify : ℕ → HandlerOutcome
classify status = if ltb status 500 then client_error else server_error

unfoldable pub intercept : {A : Type 0} → Result ActionException A → HandlerOutcome
unfolding classify
intercept (ok a) = outcome_ok
intercept (err e) = classify e.status

-- ===== src/Orders/Api.antt =====
-- The routes of apps/workflow-service/src/orders/orders.controller.ts, behind the guard of the shared secret
-- and inside the interceptor that times them. The throttler, which comes first, keeps its counts in its
-- library.
pub mod Rejections
pub mod Amounts
pub mod Totals
pub mod Tests
use ecommerce_orderflow.Prelude.{String, Bool, true, false, Option, none, some}
use ecommerce_orderflow.Runtime.{Result, ok, err, Call, pure, throw, ◌>>=◌}
use ecommerce_orderflow.Orders.Errors.{Thrown, zod_error, ActionException, to_action_exception}
use ecommerce_orderflow.Orders.Tables.{OrderResult, Orders}
use ecommerce_orderflow.Orders.Transition.{Session, transition_order}
use ecommerce_orderflow.Orders.Client.{System}
use ecommerce_orderflow.Orders.Placement.{Env, place_order}
use ecommerce_orderflow.Orders.Edge.{SessionVariables, parse_session}
use ecommerce_orderflow.Orders.Guards.{Crypto, can_activate, HandlerOutcome, intercept}
use ecommerce_orderflow.Orders.Dto.{
  Text, PlaceOrderBody, TransitionOrderBody, parse_place_order, parse_transition_order,
}

-- `try { … } catch (err) { throw toActionException(err); }`
abbrev pub mapped : {A : Type 0} → Result Thrown A → Result ActionException A
mapped (ok a) = ok a
mapped (err e) = err (to_action_exception e)

abbrev pub caught : {S A : Type 0} → Call S Thrown A → Call S ActionException A
caught call s = let (r, s') = call s in (mapped r, s')

abbrev pub returned : {S A : Type 0} → Result Thrown A → Call S Thrown A
returned (ok a) = pure a
returned (err e) = throw e

-- `schema.parse(body.input)`
abbrev pub parsed : {S A : Type 0} → Option A → Call S Thrown A
parsed none = throw zod_error
parsed (some a) = pure a

unfoldable pub place_order_action :
    Text → Env → SessionVariables → PlaceOrderBody → Call System ActionException OrderResult
unfolding to_action_exception
place_order_action text env vars body = caught (
    returned (parse_session text.uuid vars) >>= λ session.
    parsed (parse_place_order text body) >>= λ input. place_order env session input)

unfoldable pub transition_order_action :
    Text → SessionVariables → TransitionOrderBody → Call Orders ActionException OrderResult
unfolding to_action_exception
transition_order_action text vars body = caught (
    returned (parse_session text.uuid vars) >>= λ session.
    parsed (parse_transition_order text body) >>= λ input. transition_order session input)

-- The guard's refusal, or the handler's answer with the outcome that its duration is counted under.
pub data Response (A : Type 0) : Type 0 where
  unauthorized : Response A
  answered : HandlerOutcome → Result ActionException A → Response A

abbrev pub guarded : {S A : Type 0} → Bool → Call S ActionException A → S → Response A × S
guarded false route s = (unauthorized, s)
guarded true route s = let (r, s') = route s in (answered (intercept r) r, s')

-- A request: its header `x-action-secret`, its session variables and its input.
pub record Post (Body : Type 0) : Type 0 where
  pub secret : Option String
  pub vars : SessionVariables
  pub body : Body

unfoldable pub post_place_order :
    Crypto → String → Text → Env → Post PlaceOrderBody → System → Response OrderResult × System
unfolding can_activate intercept
post_place_order crypto action_secret text env p =
    guarded (can_activate crypto action_secret p.secret) (place_order_action text env p.vars p.body)

unfoldable pub post_transition_order :
    Crypto → String → Text → Post TransitionOrderBody → Orders → Response OrderResult × Orders
unfolding can_activate intercept
post_transition_order crypto action_secret text p =
    guarded (can_activate crypto action_secret p.secret)
      (transition_order_action text p.vars p.body)

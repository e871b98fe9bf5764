-- ===== src/Orders/Api/Rejections.antt =====
-- Which requests to apps/workflow-service/src/orders/orders.controller.ts reach the service.
use mathlib.Core.Option.{some_inj}
use ecommerce_orderflow.Prelude.{
  ℕ, ◌⊎◌, String, ◌≡◌, refl, sym, Bool, true, false, Option, none, some, inl, inr,
}
use ecommerce_orderflow.Runtime.{Result, ok, err}
use ecommerce_orderflow.Domain.Transitions.{Role}
use ecommerce_orderflow.Orders.Errors.{Thrown, Code, to_action_exception, unauthenticated}
use ecommerce_orderflow.Orders.Tables.{OrderResult, Orders}
use ecommerce_orderflow.Orders.Transition.{Session}
use ecommerce_orderflow.Orders.Client.{System}
use ecommerce_orderflow.Orders.Placement.{Env}
use ecommerce_orderflow.Orders.Edge.{
  SessionVariables, session_of, named_role, parse_user, parse_session,
}
use ecommerce_orderflow.Orders.Guards.{Crypto, can_activate, client_error, intercept, classify}
use ecommerce_orderflow.Orders.Dto.{
  Text, PlaceOrderBody, TransitionOrderBody, parse_place_order, parse_transition_order,
}
use ecommerce_orderflow.Orders.Api.{
  Response, unauthorized, answered, place_order_action, transition_order_action, Post,
  post_place_order, post_transition_order,
}

-- The reply to a request that is turned away, if it is.
abbrev pub rejection :
    {A I : Type 0} → Bool → Result Thrown Session → Option I → Option (Response A)
rejection false session input = some unauthorized
rejection true (err e) input =
    some (answered client_error (err (record { status = 403; code = Code.unauthenticated })))
rejection true (ok session) none =
    some (answered client_error (err (record { status = 400; code = Code.bad_input })))
rejection true (ok session) (some input) = none

session_of-refuses :
    (r : Option Role) (u : Option (Option ℕ)) (e : Thrown)
    → session_of r u ≡ err e
    → e ≡ unauthenticated
session_of-refuses none u e h = cc
session_of-refuses (some r) none e h = cc
session_of-refuses (some r) (some u) e h = cc

-- No session but a role and a user make one: each failure is the same.
session_error :
    (uuid : String → Option ℕ) (vars : SessionVariables) (e : Thrown)
    → parse_session uuid vars ≡ err e
    → e ≡ unauthenticated
unfolding parse_session
session_error uuid vars e h =
    session_of-refuses (named_role vars.role) (parse_user uuid vars.user_id) e h

-- Where a request is turned away, and with what.
abbrev Turned : {A I : Type 0} → Bool → Result Thrown Session → Option I → Response A → Type 0
Turned b session input r =
    ((b ≡ false) × (r ≡ unauthorized))
    ⊎ (((e : Thrown) × (b ≡ true)
          × (session ≡ err e)
          × (r
              ≡ answered client_error (err (record { status = 403; code = Code.unauthenticated }))))
        ⊎ ((u : Session) × (b ≡ true)
            × (session ≡ ok u)
            × (input ≡ none)
            × (r ≡ answered client_error (err (record { status = 400; code = Code.bad_input })))))

rejection-Turned :
    {A I : Type 0} (b : Bool) (session : Result Thrown Session) (input : Option I) (r : Response A)
    → rejection b session input ≡ some r
    → Turned b session input r
rejection-Turned false session input r h = inl (refl, sym (some_inj.0 h))
rejection-Turned true (err e) input r h = inr (inl (e, refl, refl, sym (some_inj.0 h)))
rejection-Turned true (ok u) none r h = inr (inr (u, refl, refl, refl, sym (some_inj.0 h)))
rejection-Turned true (ok u) (some i) r h = absurd (cc)

-- A request to place an order without the secret, without a session or with an invalid input gets 401,
-- 403 or 400, counts as the client's error if it was timed, and changes nothing in either service.
pub post_place_order-rejects :
    (crypto : Crypto) (secret : String) (text : Text) (env : Env) (p : Post PlaceOrderBody)
    (s : System) (r : Response OrderResult)
    → rejection
        (can_activate crypto secret p.secret)
        (parse_session text.uuid p.vars)
        (parse_place_order text p.body)
      ≡ some r
    → post_place_order crypto secret text env p s ≡ (r, s)
unfolding post_place_order place_order_action to_action_exception intercept classify
post_place_order-rejects crypto secret text env p s r h =
    elim (rejection-Turned (can_activate crypto secret p.secret) (parse_session text.uuid p.vars)
      (parse_place_order text p.body) r h) [
        | inl (e, k) ↦ rw (e, k) refl
        | inr (inl (x, e, f, k)) ↦ rw (e, k, f, session_error text.uuid p.vars x f) refl
        | inr (inr (u, e, f, g, k)) ↦ rw (e, k, f, g) refl
      ]

-- A request to move an order without the secret, without a session or with an invalid input gets 401,
-- 403 or 400, counts as the client's error if it was timed, and changes nothing.
pub post_transition_order-rejects :
    (crypto : Crypto) (secret : String) (text : Text) (p : Post TransitionOrderBody) (w : Orders)
    (r : Response OrderResult)
    → rejection
        (can_activate crypto secret p.secret)
        (parse_session text.uuid p.vars)
        (parse_transition_order text p.body)
      ≡ some r
    → post_transition_order crypto secret text p w ≡ (r, w)
unfolding post_transition_order transition_order_action to_action_exception intercept classify
post_transition_order-rejects crypto secret text p w r h =
    elim (rejection-Turned (can_activate crypto secret p.secret) (parse_session text.uuid p.vars)
      (parse_transition_order text p.body) r h) [
        | inl (e, k) ↦ rw (e, k) refl
        | inr (inl (x, e, f, k)) ↦ rw (e, k, f, session_error text.uuid p.vars x f) refl
        | inr (inr (u, e, f, g, k)) ↦ rw (e, k, f, g) refl
      ]

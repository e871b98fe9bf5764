-- ===== src/Orders/Api/Tests.antt =====
-- The guards and the routes at concrete requests.
use mathlib.Core.Option.{bind}
use ecommerce_orderflow.Prelude.{
  ℕ, String, str_append, str_eq, eq_iff, ◌≡◌, ◌≢◌, ◌↔◌, ◌<◌, ◌^◌, refl, List, [], ◌∷◌, Option, none,
  some, pos, arith, true, if◌then◌else◌,
}
use ecommerce_orderflow.Runtime.{ok, err}
use ecommerce_orderflow.Inventory.Errors.{infrastructure, storage_error}
use ecommerce_orderflow.Inventory.Http.{to_http_exception}
use ecommerce_orderflow.Inventory.Api.{post_confirm, post_release}
use ecommerce_orderflow.Orders.Errors.{Code, zod_error, other_error, to_action_exception}
use ecommerce_orderflow.Orders.Tables.{OrderResult}
use ecommerce_orderflow.Orders.Repository.{find_products}
use ecommerce_orderflow.Orders.Edge.{SessionVariables, parse_role, parse_session}
use ecommerce_orderflow.Orders.Placement.{Env, PlaceOrderInput, PricedLine, price_in, total_cents}
use ecommerce_orderflow.Orders.Checkout.{empty_house}
use ecommerce_orderflow.Orders.Tests.{office}
use ecommerce_orderflow.Orders.Guards.{
  Crypto, matches_secret, can_activate, classify, server_error, client_error,
}
use ecommerce_orderflow.Orders.Guards.Secret.{can_activate_iff}
use ecommerce_orderflow.Orders.Guards.Budget.{IsFailure, budget_iff}
use ecommerce_orderflow.Orders.Dto.{
  Text, PlaceOrderBody, TransitionOrderBody, parse_line, parse_lines, parse_place_order,
  parse_transition_order,
}
use ecommerce_orderflow.Orders.Api.{
  Response, unauthorized, answered, Post, post_place_order, post_transition_order,
}
use ecommerce_orderflow.Orders.Api.Rejections.{
  rejection, post_place_order-rejects, post_transition_order-rejects,
}
use ecommerce_orderflow.Orders.Api.Totals.{total_cents-exact}

-- Texts for buffers.
abbrev pub plain : Crypto
plain = record { Buffer = String; utf8 = λ t. t; length = λ t. 8; timing_safe_equal = str_eq }

abbrev secret : String
secret = "s3cret"

abbrev guess : Option String
guess = some "guess"

abbrev fourth : Option String
fourth = some "4"

abbrev nobody : Option String
nobody = none

abbrev address : Option String
address = some "10.0.0.7"

abbrev empty : String
empty = ""

secret-ne-empty : secret ≢ empty
secret-ne-empty = λ e. absurd (cc)

can_activate_iff_example : (can_activate plain secret guess ≡ true) ↔ (guess ≡ some secret)
can_activate_iff_example =
    can_activate_iff plain (λ s t e. e) (λ a b e. eq_iff a b) secret guess secret-ne-empty

-- A key that is not hashed.
abbrev storage_key : String → String → String → String
storage_key class handler tracker =
    str_append (str_append class "-") (str_append (str_append handler "-") tracker)

abbrev controller : String
controller = "OrdersController"

abbrev placing : String
placing = "placeOrder"

abbrev moving : String
moving = "transitionOrder"

budget_iff_example :
    ((classify (to_action_exception zod_error).status ≡ server_error) ↔ (zod_error ≡ other_error))
    × ((classify (to_http_exception (infrastructure storage_error)).status ≡ server_error)
        ↔ IsFailure (infrastructure storage_error))
    × (classify (post_confirm none (empty_house []).inventory).0.status ≡ server_error)
    × ((post_confirm none (empty_house []).inventory).1.db ≡ (empty_house []).inventory.db)
    × (classify (post_release none (empty_house []).inventory).0.status ≡ server_error)
    × ((post_release none (empty_house []).inventory).1.db ≡ (empty_house []).inventory.db)
budget_iff_example = budget_iff zod_error (infrastructure storage_error) (empty_house []).inventory

-- One UUID is known, and no text needs trimming.
abbrev known : String → Option ℕ
known t = if str_eq t "lamp" then some 7 else if str_eq t "shopper" then some 4 else none

abbrev pub texts : Text
texts = record { uuid = known; trim = λ t. t; size = λ t. 8 }

abbrev pub shop_env : Env
shop_env = record { fingerprint = λ items. "two lamps"; order_id = 1; ttl = 300; now = 1000 }

abbrev shopper_vars : SessionVariables
shopper_vars = record { role = some "customer"; user_id = some "shopper" }

abbrev two_lamps : PlaceOrderBody
two_lamps = record {
  items = record { product_id = "lamp"; quantity = pos 2 } ∷ [];
  idempotency_key = none;
}

abbrev too_many : PlaceOrderBody
too_many = record {
  items = record { product_id = "lamp"; quantity = pos 1001 } ∷ [];
  idempotency_key = none;
}

abbrev pub too_many_post : Post PlaceOrderBody
too_many_post = record { secret = some "s3cret"; vars = shopper_vars; body = too_many }

abbrev bad_input : Response OrderResult
bad_input = answered client_error (err (record { status = 400; code = Code.bad_input }))

too_many-rejected :
    rejection {A = OrderResult}
      (can_activate plain "s3cret" too_many_post.secret)
      (parse_session known too_many_post.vars)
      (parse_place_order texts too_many_post.body)
    ≡ some bad_input
unfolding can_activate matches_secret parse_session parse_role parse_place_order parse_lines
    parse_line bind
too_many-rejected = refl

post_place_order-rejects_example :
    post_place_order plain "s3cret" texts shop_env too_many_post (empty_house [])
    ≡ (bad_input, empty_house [])
post_place_order-rejects_example =
    post_place_order-rejects plain "s3cret" texts shop_env too_many_post (empty_house []) bad_input
      too_many-rejected

abbrev pub intrusion : Post TransitionOrderBody
intrusion = record {
  secret = some "guess";
  vars = record { role = some "ops"; user_id = none };
  body = record { order_id = "lamp"; action = "ship"; expected_version = none; reason = none };
}

intrusion-rejected :
    rejection {A = OrderResult}
      (can_activate plain "s3cret" intrusion.secret)
      (parse_session known intrusion.vars)
      (parse_transition_order texts intrusion.body)
    ≡ some unauthorized
unfolding can_activate matches_secret
intrusion-rejected = refl

post_transition_order-rejects_example :
    post_transition_order plain "s3cret" texts intrusion office ≡ (unauthorized, office)
post_transition_order-rejects_example =
    post_transition_order-rejects plain "s3cret" texts intrusion office unauthorized
      intrusion-rejected

abbrev two_lamps_input : PlaceOrderInput
two_lamps_input = record {
  items = record { product_id = 7; quantity = 2 } ∷ [];
  idempotency_key = none;
}

abbrev priced_lamps : List PricedLine
priced_lamps = record { product_id = 7; quantity = 2; unit_price_cents = 900 } ∷ []

lamps_parsed : parse_place_order texts two_lamps ≡ some two_lamps_input
unfolding parse_place_order parse_lines parse_line bind
lamps_parsed = refl

lamps_priced : (price_in two_lamps_input.items (empty_house []).orders).0 ≡ ok priced_lamps
unfolding price_in find_products
lamps_priced = refl

total_cents-exact_example : total_cents priced_lamps < 2 ^ 53
total_cents-exact_example =
    total_cents-exact texts two_lamps two_lamps_input (empty_house []).orders priced_lamps
      lamps_parsed (omega arith, tt) lamps_priced

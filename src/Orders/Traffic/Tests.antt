-- ===== src/Orders/Traffic/Tests.antt =====
-- The metrics over a few requests.
use ecommerce_orderflow.Prelude.{List, [], ◌∷◌, some, true, false}
use ecommerce_orderflow.Orders.Checkout.{empty_house}
use ecommerce_orderflow.Orders.Api.Tests.{plain, texts, shop_env, too_many_post, intrusion}
use ecommerce_orderflow.Orders.Traffic.{
  HttpMetrics, Target, Site, placement, transition, Arrival, receive_all,
}
use ecommerce_orderflow.Orders.Traffic.Counted.{Adds, receive_all-Adds}

abbrev site : Site
site = record { crypto = plain; action_secret = "s3cret"; text = texts }

abbrev place_order_route : Target
place_order_route = record { path = some "/actions/place-order"; url = "/actions/place-order?x=1" }

abbrev arrivals : List Arrival
arrivals =
    record {
      admitted = true;
      target = place_order_route;
      request = placement shop_env too_many_post;
    }
    ∷ record { admitted = true; target = place_order_route; request = transition intrusion }
    ∷ record {
      admitted = false;
      target = place_order_route;
      request = placement shop_env too_many_post;
    }
    ∷ []

abbrev no_metrics : HttpMetrics
no_metrics = record { request_duration = []; throttled = [] }

receive_all-Adds_example :
    Adds
      (receive_all site arrivals no_metrics (empty_house [])).0
      no_metrics
      (receive_all site arrivals no_metrics (empty_house [])).1.0
receive_all-Adds_example = receive_all-Adds site arrivals no_metrics (empty_house [])

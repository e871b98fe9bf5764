-- ===== src/Orders/Traffic/Counted.antt =====
-- The metrics of apps/workflow-service/src against the replies that the callers got.
use ecommerce_orderflow.Prelude.{
  ℕ, ◌+◌, ◌≡◌, refl, List, [], ◌∷◌, Bool, true, false, leb, ltb, length, sum_by, arith,
  if◌then◌else◌, Bool-cases, inl, inr,
}
use ecommerce_orderflow.Runtime.{Call, Result, ok, err}
use ecommerce_orderflow.Orders.Errors.{ActionException}
use ecommerce_orderflow.Orders.Tables.{OrderResult}
use ecommerce_orderflow.Orders.Client.{System}
use ecommerce_orderflow.Orders.Guards.{HandlerOutcome, server_error, classify, intercept}
use ecommerce_orderflow.Orders.Api.{
  Response, unauthorized, answered, guarded, post_place_order, post_transition_order,
}
use ecommerce_orderflow.Orders.Traffic.{
  Observation, HttpMetrics, Target, Reply, rate_limited, passed, status_code, observe, Site,
  Request, placement, transition, route_request, Arrival, receive_request, receive_all,
  after_throttler,
}

abbrev pub is_server : HandlerOutcome → Bool
is_server server_error = true
is_server _ = false

abbrev pub is_server_error : Observation → Bool
is_server_error o = is_server o.outcome

abbrev pub is_failure : Reply → Bool
is_failure r = leb 500 (status_code r)

abbrev pub is_rate_limited : Reply → Bool
is_rate_limited rate_limited = true
is_rate_limited (passed r) = false

abbrev pub is_answered : Reply → Bool
is_answered (passed (answered o r)) = true
is_answered _ = false

abbrev pub count_by {ℓ} : {A : Type ℓ} → (A → Bool) → List A → ℕ
count_by p xs = sum_by (λ x. if p x then 1 else 0) xs

-- An answer is counted under the outcome that it has.
abbrev IsCounted : Response OrderResult → Type 0
IsCounted unauthorized = Unit
IsCounted (answered o r) = o ≡ intercept r

guarded-IsCounted :
    {S : Type 0} (b : Bool) (route : Call S ActionException OrderResult) (s : S)
    → IsCounted (guarded b route s).0
guarded-IsCounted false route s = tt
guarded-IsCounted true route s = refl

route_request-IsCounted :
    (site : Site) (q : Request) (s : System) → IsCounted (route_request site q s).0
unfolding post_place_order post_transition_order
route_request-IsCounted site (placement env p) s = guarded-IsCounted _ _ s
route_request-IsCounted site (transition p) s = guarded-IsCounted _ _ s.orders

-- What a reply adds to the metrics.
pub record Adds (r : List Reply) (m m' : HttpMetrics) : Type 0 where
  pub failures :
      count_by is_server_error m'.request_duration
      ≡ count_by is_server_error m.request_duration + count_by is_failure r
  pub answers : length m'.request_duration ≡ length m.request_duration + count_by is_answered r
  pub refusals : length m'.throttled ≡ length m.throttled + count_by is_rate_limited r

-- The server's errors are the statuses from 500.
is_server_lem :
    (o : HandlerOutcome) (r : Result ActionException OrderResult)
    → o ≡ intercept r
    → is_server o ≡ is_failure (passed (answered o r))
unfolding intercept classify
is_server_lem o (ok r) h = rw h refl
is_server_lem o (err e) h = elim (Bool-cases (ltb e.status 500)) [
  | inl t ↦ rw h (ground (arith, t))
  | inr t ↦ rw h (ground (arith, t))
]

observe-Adds :
    (t : Target) (r : Response OrderResult) (m : HttpMetrics)
    → IsCounted r
    → Adds (passed r ∷ []) m (observe t r m)
observe-Adds t unauthorized m h = record {
  failures = omega arith;
  answers = omega arith;
  refusals = omega arith;
}
observe-Adds t (answered o r) m h = record {
  failures = ground (arith, is_server_lem o r h);
  answers = omega arith;
  refusals = omega arith;
}

receive_request-Adds :
    (site : Site) (a : Arrival) (m : HttpMetrics) (s : System)
    → Adds ((receive_request site a m s).0 ∷ []) m (receive_request site a m s).1.0
unfolding receive_request
receive_request-Adds site a m s = after_throttler-Adds a.admitted
  where
    after_throttler-Adds :
        (b : Bool)
        → Adds
            ((after_throttler b site a.target a.request m s).0 ∷ [])
            m
            (after_throttler b site a.target a.request m s).1.0
    after_throttler-Adds false = record {
      failures = omega arith;
      answers = omega arith;
      refusals = omega arith;
    }
    after_throttler-Adds true =
        observe-Adds a.target (route_request site a.request s).0 m
          (route_request-IsCounted site a.request s)

Adds-after :
    (r : Reply) (rs : List Reply) (m₀ m₁ m₂ : HttpMetrics)
    → Adds (r ∷ []) m₀ m₁
    → Adds rs m₁ m₂
    → Adds (r ∷ rs) m₀ m₂
Adds-after r rs m₀ m₁ m₂ h k = record {
  failures = omega (arith, h.failures, k.failures);
  answers = omega (arith, h.answers, k.answers);
  refusals = omega (arith, h.refusals, k.refusals);
}

-- Over any requests, the histogram has gained one observation for each reply of a handler, under the outcome
-- `server_error` for exactly those of status 500 or more, and the counter of throttled requests one for each
-- refusal of the throttler: what a guard turns away burns no error budget.
pub receive_all-Adds :
    (site : Site) (arrivals : List Arrival) (m : HttpMetrics) (s : System)
    → Adds (receive_all site arrivals m s).0 m (receive_all site arrivals m s).1.0
unfolding receive_all
receive_all-Adds site [] m s = record {
  failures = omega arith;
  answers = omega arith;
  refusals = omega arith;
}
receive_all-Adds site (a ∷ later) m s =
    let x = receive_request site a m s in
    Adds-after x.0 (receive_all site later x.1.0 x.1.1).0 m x.1.0
      (receive_all site later x.1.0 x.1.1).1.0 (receive_request-Adds site a m s)
      (receive_all-Adds site later x.1.0 x.1.1)

-- ===== src/Orders/Serving/Runs.antt =====
-- What every call of the order service keeps, answered or refused.
use ecommerce_orderflow.Prelude.{List, [], ◌∷◌}
use ecommerce_orderflow.Runtime.Laws.{Ensures-map}
use ecommerce_orderflow.Orders.Tables.{OrderRow, OrderDb}
use ecommerce_orderflow.Orders.Transition.{transition_in, transition_order}
use ecommerce_orderflow.Orders.Client.{System}
use ecommerce_orderflow.Orders.Placement.{place_order}
use ecommerce_orderflow.Orders.Revision.{Advances, transition_in-Ensures}
use ecommerce_orderflow.Orders.Serving.{Request, places, moves, serve, run, IsKept}
use ecommerce_orderflow.Orders.Serving.Steps.{transaction-Keeps}
use ecommerce_orderflow.Orders.Serving.Calls.{place_as-Keeps}
use ecommerce_orderflow.Orders.Serving.Saga.{orders_keep}

module _ (P : OrderDb → Type 0) (kept : IsKept P) where
  pub serve-Kept : (r : Request) (s : System) → P s.orders.db → P (serve r s).orders.db
  unfolding serve place_order transition_order
  serve-Kept (places env session input) s a =
      place_as-Keeps (λ x. P x.orders.db) (orders_keep P kept) env session session.user_id input s a
  serve-Kept (moves session input) s a =
      transaction-Keeps P (transition_in session input)
        (λ w h.
          Ensures-map (λ r w'. (o : OrderRow) × Advances session input w.db w'.db o r)
            (λ _ w'. P w'.db) (transition_in session input w)
            (λ r w' x. kept.move_kept session input w.db w'.db x.0 r x.1 h)
            (transition_in-Ensures session input w))
        s a

  pub run-Kept : (rs : List Request) (s : System) → P s.orders.db → P (run rs s).orders.db
  unfolding run
  run-Kept [] s a = a
  run-Kept (r ∷ rs) s a = run-Kept rs (serve r s) (serve-Kept r s a)

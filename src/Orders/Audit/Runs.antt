-- ===== src/Orders/Audit/Runs.antt =====
-- The audit trail under any sequence of calls of both operations of
-- apps/workflow-service/src/orders/orders.service.ts, answered or refused.
use ecommerce_orderflow.Prelude.{◌≡◌, List}
use ecommerce_orderflow.Orders.Tables.{OrderDb}
use ecommerce_orderflow.Orders.Client.{System}
use ecommerce_orderflow.Orders.Audit.{IsAudited}
use ecommerce_orderflow.Orders.Audit.Moves.{Advances-IsAudited}
use ecommerce_orderflow.Orders.Audit.Places.{Wrote-IsAudited}
use ecommerce_orderflow.Orders.Serving.{Request, run, IsKept}
use ecommerce_orderflow.Orders.Serving.Runs.{run-Kept}

same-IsAudited :
    (d d' : OrderDb)
    → d'.orders ≡ d.orders
    → d'.order_events ≡ d.order_events
    → IsAudited d
    → IsAudited d'
same-IsAudited d d' e f a = record {
  keyed = rw e a.keyed;
  told = rw (e, f) a.told;
  owned = rw (e, f) a.owned;
}

pub IsAudited-IsKept : IsKept IsAudited
IsAudited-IsKept = record {
  same_kept = same-IsAudited;
  write_kept = Wrote-IsAudited;
  move_kept = Advances-IsAudited;
}

-- After any sequence of placements and transitions, answered or refused, under any faults of the driver
-- and the network, an order database whose trail was complete has a complete trail: order ids are
-- distinct, every event is of an order, and the events of each order tell its story, from its placement
-- through permitted transitions to its status, with as many events as its version.
pub run-IsAudited :
    (rs : List Request) (s : System) → IsAudited s.orders.db → IsAudited (run rs s).orders.db
run-IsAudited = run-Kept IsAudited IsAudited-IsKept

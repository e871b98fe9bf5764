-- ===== src/Services/Runs.antt =====
-- Both services and their callers, apps/workflow-service and apps/inventory-service, step by step.
use ecommerce_orderflow.Prelude.{
  ℕ, String, str_eq, ◌≡◌, refl, sym, ap, ◌∙◌, List, [], ◌∷◌, ◌++◌, Bool, true, ◌&&◌, ◌==◌, ==_iff,
  some, any, All-map, arith,
}
use mathlib.Core.Option.{some_inj}
use ecommerce_orderflow.Domain.Transitions.{
  OrderStatus, pending, confirmed, packed, shipped, delivered, cancelled, returned, same_status,
}
use ecommerce_orderflow.Inventory.Events.{order_event}
use ecommerce_orderflow.Inventory.Serving.{
  Request as StockRequest, serve as serve_stock, reserves, confirms, commits, releases, receives,
  delivers, sweeps,
}
use ecommerce_orderflow.Orders.Tables.{OrderEventRow, OrderDb}
use ecommerce_orderflow.Orders.Placement.{place_order}
use ecommerce_orderflow.Orders.Client.{System}
use ecommerce_orderflow.Orders.Audit.{IsAudited}
use ecommerce_orderflow.Orders.Audit.Runs.{IsAudited-IsKept}
use ecommerce_orderflow.Orders.Serving.{Request, serve, places, moves, IsKept}
use ecommerce_orderflow.Orders.Serving.Calls.{place_as-Keeps}
use ecommerce_orderflow.Orders.Serving.Runs.{serve-Kept}
use ecommerce_orderflow.Services.{
  is_routed, Uuids, status_text, event_body, Step, called, asked, notified, Steps, none_yet,
  then_step,
}
use ecommerce_orderflow.Inventory.Tables.{ReservationRow, committed}
use ecommerce_orderflow.Inventory.Stock.Rows.{IsRowKept}
use ecommerce_orderflow.Inventory.Stock.Rows.Requests.{IsSound, IsAllowed, serve-Sound}
use ecommerce_orderflow.Services.Asking.{asks_keep}

abbrev pub ships : ℕ → OrderEventRow → Bool
ships o e = (e.order_id == o) && same_status e.to_status shipped

-- The trail says that the order was shipped.
abbrev pub WasShipped : OrderDb → ℕ → Type 0
WasShipped d o = any (ships o) d.order_events ≡ true

any-append_left :
    (p : OrderEventRow → Bool) (es fs : List OrderEventRow)
    → any p es ≡ true
    → any p (es ++ fs) ≡ true
any-append_left p [] fs h = absurd (cc)
any-append_left p (e ∷ es) fs h = ground (arith, h, any-append_left p es fs)

any-middle :
    (p : OrderEventRow → Bool) (e : OrderEventRow) (es fs : List OrderEventRow)
    → p e ≡ true
    → any p (es ++ e ∷ fs) ≡ true
any-middle p e [] fs h = rw h refl
any-middle p e (x ∷ es) fs h = ground (arith, any-middle p e es fs h)

WasShipped-IsKept : (o : ℕ) → IsKept (λ d. WasShipped d o)
WasShipped-IsKept o = record {
  same_kept = λ d d' e f h. ap (any (ships o)) f ∙ h;
  write_kept = λ order user role lines d d' w h.
      ap (any (ships o)) w.event_added ∙ any-append_left (ships o) d.order_events _ h;
  move_kept = λ s i d d' x r a h.
      ap (any (ships o)) a.event_appended ∙ any-append_left (ships o) d.order_events _ h;
}

-- A COMMITTED reservation is of an order of which `Q` holds.
abbrev pub IsRightful : (ℕ → Type 0) → ReservationRow → Type 0
IsRightful Q v = v.status ≡ committed → Q v.order_id

IsRightful-IsRowKept : (Q : ℕ → Type 0) → IsRowKept (IsRightful Q) (λ _. Unit {0}) Q
IsRightful-IsRowKept Q = record {
  new_kept = λ o p q x _ c. absurd (cc);
  released_kept = λ v k c. absurd (cc);
  committed_kept = λ v q k c. q;
  unexpired_kept = λ v k. k;
}

serve-stocked :
    (Q : ℕ → Type 0) (r : Request) (s : System)
    → IsSound (IsRightful Q) s.inventory.db
    → IsSound (IsRightful Q) (serve r s).inventory.db
unfolding serve place_order
serve-stocked Q (places env session input) s h =
    place_as-Keeps (λ x. IsSound (IsRightful Q) x.inventory.db)
      (asks_keep (IsRightful Q) Q (IsRightful-IsRowKept Q)) env session session.user_id input s h
serve-stocked Q (moves session input) s h = h

IsSound-map :
    (P Q : ℕ → Type 0) (s : System)
    → ((o : ℕ) → P o → Q o)
    → IsSound (IsRightful P) s.inventory.db
    → IsSound (IsRightful Q) s.inventory.db
IsSound-map P Q s f h = (
  h.0,
  All-map (IsRightful P) (IsRightful Q) (λ v k c. f v.order_id (k c)) s.inventory.db.reservations
      h.1,
)

-- A request that comes by a route, or from the sweeper, commits nothing.
routed-IsAllowed :
    (Q : ℕ → Type 0) (r : StockRequest) → is_routed r ≡ true → IsAllowed (λ _. Unit {0}) Q r
routed-IsAllowed Q (reserves ttl now i) e = tt
routed-IsAllowed Q (confirms o) e = tt
routed-IsAllowed Q (commits o) e = absurd (cc)
routed-IsAllowed Q (releases o reason) e = tt
routed-IsAllowed Q (receives i) e = tt
routed-IsAllowed Q (delivers id p) e = absurd (cc)
routed-IsAllowed Q (sweeps now o) e = tt

-- What the two databases owe each other.
pub record Agrees (s : System) : Type 0 where
  pub audited : IsAudited s.orders.db
  pub sound : IsSound (IsRightful (WasShipped s.orders.db)) s.inventory.db

shipped_text :
    (st : OrderStatus) → str_eq (status_text st) "SHIPPED" ≡ true → same_status st shipped ≡ true
shipped_text pending h = absurd (cc)
shipped_text confirmed h = absurd (cc)
shipped_text packed h = absurd (cc)
shipped_text shipped h = refl
shipped_text delivered h = absurd (cc)
shipped_text cancelled h = absurd (cc)
shipped_text returned h = absurd (cc)

ships_lem :
    (u : Uuids) (e : OrderEventRow) (o : ℕ)
    → ((n : ℕ) → u.parse (u.write n) ≡ some n)
    → str_eq (status_text e.to_status) "SHIPPED" ≡ true
    → u.parse (u.write e.order_id) ≡ some o
    → ships o e ≡ true
ships_lem u e o r t p =
    rw ((==_iff e.order_id o).1 (some_inj.0 (sym (r e.order_id) ∙ p))) (shipped_text e.to_status t)

module _ (u : Uuids) (round : (n : ℕ) → u.parse (u.write n) ≡ some n) where
  notified_event-IsSound :
      (id : String) (e : OrderEventRow) (earlier later : List OrderEventRow) (s : System)
      → s.orders.db.order_events ≡ earlier ++ e ∷ later
      → IsSound (IsRightful (WasShipped s.orders.db)) s.inventory.db
      → IsSound
          (IsRightful (WasShipped s.orders.db))
          (order_event u.parse (event_body u id e) s.inventory).1.db
  unfolding order_event serve_stock
  notified_event-IsSound id e earlier later s t h =
      serve-Sound (IsRightful (WasShipped s.orders.db)) (λ _. Unit {0}) (WasShipped s.orders.db)
        (IsRightful-IsRowKept (WasShipped s.orders.db)) (delivers id _) s.inventory
        (λ f o p.
          ap (any (ships o)) t ∙ any-middle (ships o) e earlier later (ships_lem u e o round f p))
        h

  Step-Agrees : {s s' : System} → Step u s s' → Agrees s → Agrees s'
  Step-Agrees (called r s) h = record {
    audited = serve-Kept IsAudited IsAudited-IsKept r s h.audited;
    sound =
        IsSound-map (WasShipped s.orders.db) (WasShipped (serve r s).orders.db) (serve r s)
          (λ o. serve-Kept (λ d. WasShipped d o) (WasShipped-IsKept o) r s)
          (serve-stocked (WasShipped s.orders.db) r s h.sound);
  }
  Step-Agrees (asked r s e) h = record {
    audited = h.audited;
    sound =
        serve-Sound (IsRightful (WasShipped s.orders.db)) (λ _. Unit {0}) (WasShipped s.orders.db)
          (IsRightful-IsRowKept (WasShipped s.orders.db)) r s.inventory
          (routed-IsAllowed (WasShipped s.orders.db) r e) h.sound;
  }
  Step-Agrees (notified id e earlier later s t) h = record {
    audited = h.audited;
    sound = notified_event-IsSound id e earlier later s t h.sound;
  }

-- Over any steps of the two services, of requests that are answered or refused, sweeps, and deliveries of
-- events of the trail, late or repeated, under any faults of the drivers and the network: the audit trail stays
-- complete, the stock stays consistent, and every COMMITTED reservation is of an order that the trail says was
-- shipped, provided that PostgreSQL reads back the UUIDs that it writes.
pub Steps-Agrees :
    (u : Uuids) {s s' : System}
    → ((n : ℕ) → u.parse (u.write n) ≡ some n)
    → Steps u s s'
    → Agrees s
    → Agrees s'
Steps-Agrees u round (none_yet s) h = h
Steps-Agrees u round (then_step run step) h = Step-Agrees u round step (Steps-Agrees u round run h)

-- ===== src/Orders/Histories.antt =====
-- What becomes of an order under any sequence of calls of apps/workflow-service/src/orders/orders.service.ts,
-- against the lifecycle of packages/domain/src.
use mathlib.Core.Option.{some_inj}
use ecommerce_orderflow.Prelude.{
  ℕ, suc, ◌+◌, ◌≡◌, refl, sym, ap, ◌∙◌, subst, List, [], ◌∷◌, ◌++◌, map, Bool, false, some, find,
  find-map_if, ◌==◌, ==_iff, arith, Bool-cases, inl, inr, if◌then◌else◌,
}
use ecommerce_orderflow.Domain.Transitions.{Role, OrderStatus}
use ecommerce_orderflow.Domain.Gate.{Permits, input, result, apply_transition-moved_iff}
use ecommerce_orderflow.Domain.Lifecycle.{History, start, advance}
use ecommerce_orderflow.Orders.Tables.{OrderRow, OrderResult, OrderDb}
use ecommerce_orderflow.Orders.Repository.{has_id}
use ecommerce_orderflow.Orders.Transition.{Session, TransitionOrderInput}
use ecommerce_orderflow.Orders.Placement.{PricedLine}
use ecommerce_orderflow.Orders.Client.{System}
use ecommerce_orderflow.Orders.Revision.{Advances}
use ecommerce_orderflow.Orders.Audit.Places.{Wrote}
use ecommerce_orderflow.Orders.Serving.{Request, run, IsKept}
use ecommerce_orderflow.Orders.Serving.Runs.{run-Kept}

-- The order has come from what it was by permitted moves, one for each version since, and belongs to the same
-- customer at the same total.
pub record Follows (id : ℕ) (o : OrderRow) (d : OrderDb) : Type 0 where
  pub now : OrderRow
  pub moves : ℕ
  pub found : find (has_id id) d.orders ≡ some now
  pub history : History o.status moves now.status
  pub counted : now.version ≡ o.version + moves
  pub same_owner : (now.customer_id ≡ o.customer_id) × (now.total_cents ≡ o.total_cents)

find_kept :
    (p : OrderRow → Bool) (os us : List OrderRow) (o : OrderRow)
    → find p os ≡ some o
    → find p (os ++ us) ≡ some o
find_kept p [] us o e = absurd (cc)
find_kept p (x ∷ os) us o e = ground (arith, e, find_kept p os us o)

abbrev moved_row : OrderStatus → OrderRow → OrderRow
moved_row st x = record x { status = st; version = x.version + 1 }

-- A move of another order.
find-other :
    (id k : ℕ) (st : OrderStatus) (os : List OrderRow)
    → (id == k) ≡ false
    → find (has_id id) (map (λ x. if x.id == k then moved_row st x else x) os) ≡ find (has_id id) os
find-other id k st [] n = refl
find-other id k st (x ∷ os) n = ground (arith, n, find-other id k st os n)

same-Follows :
    (id : ℕ) (o : OrderRow) (d d' : OrderDb)
    → d'.orders ≡ d.orders
    → d'.order_events ≡ d.order_events
    → Follows id o d
    → Follows id o d'
same-Follows id o d d' e f h = record {
  now = h.now;
  moves = h.moves;
  found = ap (find (has_id id)) e ∙ h.found;
  history = h.history;
  counted = h.counted;
  same_owner = h.same_owner;
}

Wrote-Follows :
    (id : ℕ) (o : OrderRow) (order user : ℕ) (role : Role) (lines : List PricedLine)
    (d d' : OrderDb)
    → Wrote order user role lines d d'
    → Follows id o d
    → Follows id o d'
Wrote-Follows id o order user role lines d d' w h = record {
  now = h.now;
  moves = h.moves;
  found = ap (find (has_id id)) w.order_added ∙ find_kept (has_id id) d.orders _ h.now h.found;
  history = h.history;
  counted = h.counted;
  same_owner = h.same_owner;
}

-- A move of this order, from where it stands.
own_move-Follows :
    (id : ℕ) (o : OrderRow) (s : Session) (i : TransitionOrderInput) (d d' : OrderDb) (x : OrderRow)
    (r : OrderResult)
    → id ≡ i.order_id
    → Advances s i d d' x r
    → Follows id o d
    → Follows id o d'
own_move-Follows id o s i d d' x r q a h =
    let e : x ≡ h.now =
      some_inj.0 (sym a.found ∙ ap (λ k. find (has_id k) d.orders) (sym q) ∙ h.found) in
    record {
      now = moved_row r.status h.now;
      moves = suc h.moves;
      found =
          ap (find (has_id id)) a.orders_moved
          ∙ ap
              (λ k.
                find (has_id id)
                  (map (λ y. if y.id == k then moved_row r.status y else y) d.orders))
              (sym q)
          ∙ find-map_if (has_id id) (moved_row r.status) (λ y. refl) d.orders h.now h.found;
      history = advance i.action s.role h.history (
          (apply_transition-moved_iff (input h.now.status i.action s.role)
              (result h.now.status r.status i.action)).1
            (refl, refl, subst (λ y. Permits s.role y.status i.action r.status) e a.permitted));
      counted = omega (arith, h.counted);
      same_owner = h.same_owner;
    }

Advances-Follows :
    (id : ℕ) (o : OrderRow) (s : Session) (i : TransitionOrderInput) (d d' : OrderDb) (x : OrderRow)
    (r : OrderResult)
    → Advances s i d d' x r
    → Follows id o d
    → Follows id o d'
Advances-Follows id o s i d d' x r a h = elim (Bool-cases (id == i.order_id)) [
  | inl e ↦ own_move-Follows id o s i d d' x r ((==_iff id i.order_id).0 e) a h
  | inr e ↦ record {
    now = h.now;
    moves = h.moves;
    found =
        ap (find (has_id id)) a.orders_moved
        ∙ find-other id i.order_id r.status d.orders e
        ∙ h.found;
    history = h.history;
    counted = h.counted;
    same_owner = h.same_owner;
  }
]

Follows-IsKept : (id : ℕ) (o : OrderRow) → IsKept (Follows id o)
Follows-IsKept id o = record {
  same_kept = same-Follows id o;
  write_kept = Wrote-Follows id o;
  move_kept = Advances-Follows id o;
}

-- After any sequence of placements and transitions, answered or refused, under any faults of the driver and
-- the network, every order that there was is still there, of the same customer and at the same total. Its
-- status comes from its earlier one by moves that the domain's gate permits, and its version has grown by
-- their number.
pub run-Follows :
    (rs : List Request) (s : System) (id : ℕ) (o : OrderRow)
    → find (has_id id) s.orders.db.orders ≡ some o
    → Follows id o (run rs s).orders.db
run-Follows rs s id o e = run-Kept (Follows id o) (Follows-IsKept id o) rs s (record {
  now = o;
  moves = 0;
  found = e;
  history = start;
  counted = omega arith;
  same_owner = (refl, refl);
})

-- ===== src/Orders/Revision/Accepts.antt =====
-- When `transitionOrder` of apps/workflow-service/src/orders/orders.service.ts accepts.
use ecommerce_orderflow.Prelude.{
  ℕ, ◌+◌, ◌≡◌, refl, ◌⊎◌, List, [], ◌∷◌, map, true, false, ◌&&◌, Option, none, some, find, any, leb,
  arith, ◌∙◌,
}
use ecommerce_orderflow.Runtime.{ok}
use ecommerce_orderflow.Domain.Transitions.{OrderStatus, Role, customer, ops, business_admin}
use ecommerce_orderflow.Domain.Gate.{Permits, input, result, apply_transition-moved_iff}
use ecommerce_orderflow.Orders.Tables.{OrderRow, OrderDb, Orders}
use ecommerce_orderflow.Orders.Repository.{
  int4_max, has_id, known_actor, advanced, get_order_for_update, update_status, insert_event,
}
use ecommerce_orderflow.Orders.Transition.{
  Session, TransitionOrderInput, is_foreign, is_stale, transition_in,
}
use ecommerce_orderflow.Orders.Revision.Writes.{find-has_id, find-advanced}

find-any :
    (id : ℕ) (os : List OrderRow) (o : OrderRow)
    → find (has_id id) os ≡ some o
    → any (has_id id) os ≡ true
find-any id [] o e = cc
find-any id (x ∷ os) o e = ground (arith, e, find-any id os o)

-- The caller is staff or owns the order.
abbrev MayAct : Session → OrderRow → Type 0
MayAct s o = (s.role ≡ customer) → (s.user_id ≡ some o.customer_id)

MayAct-is_foreign : (s : Session) (o : OrderRow) → MayAct s o → is_foreign s s.role o ≡ false
MayAct-is_foreign s o h = by_role s.role refl
  where
    by_role : (r : Role) → s.role ≡ r → is_foreign s r o ≡ false
    by_role customer e = ground (arith, h e)
    by_role ops e = refl
    by_role business_admin e = refl

not_stale_lem :
    (x : Option ℕ) (o : OrderRow) → (x ≡ none) ⊎ (x ≡ some o.version) → is_stale x o ≡ none
not_stale_lem x o h = ground (arith, h)

known_actor-orders :
    (x : Option ℕ) (os : List OrderRow) (d : OrderDb)
    → known_actor x (record d { orders = os }) ≡ known_actor x d
known_actor-orders none os d = refl
known_actor-orders (some u) os d = refl

-- A permitted transition is made: when the order exists, the caller is staff or owns it, an expected
-- version is the order's, the lifecycle permits the move to the caller's role, no row of the order is at
-- the last version, and the caller's id is a user's or null, `transitionOrder` answers with the target
-- and the next version.
pub transition_in-accepts :
    (s : Session) (i : TransitionOrderInput) (w : Orders) (o : OrderRow) (t : OrderStatus)
    → find (has_id i.order_id) w.db.orders ≡ some o
    → (s.role ≡ customer → s.user_id ≡ some o.customer_id)
    → (i.expected_version ≡ none) ⊎ (i.expected_version ≡ some o.version)
    → Permits s.role o.status i.action t
    → any (λ x. has_id i.order_id x && leb int4_max x.version) w.db.orders ≡ false
    → known_actor s.user_id w.db ≡ true
    → (transition_in s i w).0 ≡ ok (record { id = i.order_id; status = t; version = o.version + 1 })
unfolding transition_in get_order_for_update update_status insert_event
transition_in-accepts s i w o t found may current p room known =
    let same = find-has_id i.order_id w.db.orders o found in
    let moves =
      (apply_transition-moved_iff (input o.status i.action s.role) (result o.status t i.action)).1
        (refl, refl, p) in
    let next = find-advanced i.order_id t w.db.orders o found in
    let there =
      find-any i.order_id (map (advanced i.order_id t) w.db.orders)
        (record o { status = t; version = o.version + 1 }) next in
    let actor =
      known_actor-orders s.user_id (map (advanced i.order_id t) w.db.orders) w.db ∙ known in
    rw (
      found,
      MayAct-is_foreign s o may,
      not_stale_lem i.expected_version o current,
      moves,
      same,
      room,
      next,
      there,
      actor,
    )

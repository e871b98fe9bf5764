-- ===== src/Orders/Revision.antt =====
-- What `transitionOrder` of apps/workflow-service/src/orders/orders.service.ts does to an order, its
-- audit trail and its version.

pub mod Writes
pub mod Accepts
use ecommerce_orderflow.Prelude.{
  ℕ, ◌+◌, ◌≡◌, refl, sym, ap, ap₂, subst, ◌∙◌, List, [], ◌∷◌, ◌++◌, map, false, Option, none, some,
  ◌⊎◌, ◌≢◌, inl, inr, find, any, ◌&&◌, leb, ◌==◌, arith, Bool-cases, if◌then◌else◌,
}
use ecommerce_orderflow.Runtime.{ok, err, ◌>>◌, pure}
use ecommerce_orderflow.Runtime.Laws.{
  Ensures, Ensures-map, Ensures-ok, bind-Ensures, begun, with_transaction-keeps,
}
use ecommerce_orderflow.Domain.Transitions.{OrderStatus, customer}
use ecommerce_orderflow.Domain.StateMachine.{
  TransitionResult, Outcome, moved, refused, apply_transition,
}
use ecommerce_orderflow.Domain.Gate.{Permits, input, apply_transition-moved_iff}
use ecommerce_orderflow.Orders.Errors.{other_error, version_conflict}
use ecommerce_orderflow.Orders.Tables.{OrderRow, OrderEventRow, act, OrderResult, OrderDb, Orders}
use ecommerce_orderflow.Orders.Repository.{
  int4_max, has_id, has_order, known_actor, advanced, get_order_for_update, update_status,
  insert_event, transaction,
}
use ecommerce_orderflow.Orders.Transition.{
  Session, TransitionOrderInput, is_foreign, is_stale, count_transition, event_of, write_transition,
  pass_gate, check_version, act_on, transition_in, transition_order,
}
use ecommerce_orderflow.Orders.Revision.Writes.{
  find-has_id, find-advanced, Written, write_transition-Written,
}

-- The order `o`, as it was in `d`, has been moved by the request, and the result says where to.
pub record Advances (s : Session) (i : TransitionOrderInput) (d d' : OrderDb) (o : OrderRow)
    (r : OrderResult) : Type 0 where
  pub found : find (has_id i.order_id) d.orders ≡ some o
  pub owned : s.role ≡ customer → s.user_id ≡ some o.customer_id
  pub current : (v : ℕ) → i.expected_version ≡ some v → v ≡ o.version
  pub permitted : Permits s.role o.status i.action r.status
  pub answered : (r.id ≡ i.order_id) × (r.version ≡ o.version + 1)
  pub orders_moved :
      d'.orders
      ≡ map
          (λ x.
            if x.id == i.order_id
            then record x { status = r.status; version = x.version + 1 }
            else x)
          d.orders
  pub event_appended :
      d'.order_events
      ≡ d.order_events
        ++ record {
          order_id = i.order_id;
          from_status = some o.status;
          to_status = r.status;
          action = act i.action;
          actor_id = s.user_id;
          actor_role = some s.role;
          reason = i.reason;
        }
          ∷ []
  pub items_kept : d'.order_items ≡ d.order_items

owned_by :
    (s : Session) (o : OrderRow)
    → is_foreign s s.role o ≡ false
    → s.role ≡ customer
    → s.user_id ≡ some o.customer_id
owned_by s o h e = ground (arith, h, e)

not_stale :
    (x : Option ℕ) (o : OrderRow) → is_stale x o ≡ none → (v : ℕ) → x ≡ some v → v ≡ o.version
not_stale x o h v e = ground (arith, h, e)

abbrev Advanced : Session → TransitionOrderInput → Orders → OrderResult → Orders → Type 0
Advanced s i w r w' = (o : OrderRow) × Advances s i w.db w'.db o r

event_of_lem :
    (s : Session) (i : TransitionOrderInput) (o : OrderRow) (m : TransitionResult) (r : OrderResult)
    → o.id ≡ i.order_id
    → m.from ≡ o.status
    → r.status ≡ m.to
    → event_of s i o m ≡ record {
      order_id = i.order_id;
      from_status = some o.status;
      to_status = r.status;
      action = act i.action;
      actor_id = s.user_id;
      actor_role = some s.role;
      reason = i.reason;
    }
event_of_lem s i o m r a b c = cc

pass_gate-Advances :
    (s : Session) (i : TransitionOrderInput) (o : OrderRow) (w : Orders)
    → find (has_id i.order_id) w.db.orders ≡ some o
    → o.id ≡ i.order_id
    → (s.role ≡ customer → s.user_id ≡ some o.customer_id)
    → ((v : ℕ) → i.expected_version ≡ some v → v ≡ o.version)
    → (g : Outcome) → apply_transition (input o.status i.action s.role) ≡ g
    → Ensures (Advanced s i w) (pass_gate s i o g w)
pass_gate-Advances s i o w found same owned current (refused x) e = tt
pass_gate-Advances s i o w found same owned current (moved m) e =
    let p = (apply_transition-moved_iff (input o.status i.action s.role) m).0 e in
    Ensures-map (Written s i o m w) (Advanced s i w) (write_transition s i o m w)
      (λ r w' h. (
        o,
        record {
          found = found;
          owned = owned;
          current = current;
          permitted =
              subst (λ t. Permits s.role o.status i.action t) (sym (ap (λ x. x.status) h.0)) p.2;
          answered = (ap (λ x. x.id) h.0 ∙ same, ap (λ x. x.version) h.0);
          orders_moved =
              h.1
              ∙ ap₂ (λ id st. map (advanced id st) w.db.orders) same (sym (ap (λ x. x.status) h.0));
          event_appended =
              h.2
              ∙ ap (λ x. w.db.order_events ++ x ∷ [])
                  (event_of_lem s i o m r same p.0 (ap (λ x. x.status) h.0));
          items_kept = h.3;
        },
      ))
      (write_transition-Written s i o m w
        (subst (λ n. find (has_id n) w.db.orders ≡ some o) (sym same) found))

check_version-Advances :
    (s : Session) (i : TransitionOrderInput) (o : OrderRow) (w : Orders)
    → find (has_id i.order_id) w.db.orders ≡ some o
    → (s.role ≡ customer → s.user_id ≡ some o.customer_id)
    → (x : Option ℕ) → is_stale i.expected_version o ≡ x
    → Ensures (Advanced s i w) (check_version s i o x w)
check_version-Advances s i o w found owned (some v) e = tt
check_version-Advances s i o w found owned none e =
    pass_gate-Advances s i o w found (find-has_id i.order_id w.db.orders o found) owned
      (not_stale i.expected_version o e) (apply_transition (input o.status i.action s.role)) refl

act_on-Advances :
    (s : Session) (i : TransitionOrderInput) (w : Orders) (x : Option OrderRow)
    → find (has_id i.order_id) w.db.orders ≡ x
    → Ensures (Advanced s i w) (act_on s i x w)
act_on-Advances s i w none e = tt
act_on-Advances s i w (some o) e = elim (Bool-cases (is_foreign s s.role o)) [
  | inl h ↦ rw h tt
  | inr h ↦
      rw h (check_version-Advances s i o w e (owned_by s o h) (is_stale i.expected_version o) refl)
]

pub transition_in-Ensures :
    (s : Session) (i : TransitionOrderInput) (w : Orders)
    → Ensures (λ r w'. (o : OrderRow) × Advances s i w.db w'.db o r) (transition_in s i w)
unfolding transition_in get_order_for_update
transition_in-Ensures s i w = act_on-Advances s i w (find (has_id i.order_id) w.db.orders) refl

-- When transitionOrder accepts, the order existed, a customer owned it, an expected version was the
-- order's version, and the lifecycle permits the move to the caller's role; the order, and no other,
-- has the new status and the next version, which are returned, exactly one event with the move, the
-- caller and the reason was appended, and no item has changed.
pub transition_in-Advances :
    (s : Session) (i : TransitionOrderInput) (w : Orders) (r : OrderResult)
    → (transition_in s i w).0 ≡ ok r
    → (o : OrderRow) × Advances s i w.db (transition_in s i w).1.db o r
unfolding transition_in get_order_for_update
transition_in-Advances s i w r e =
    Ensures-ok (Advanced s i w) (transition_in s i w) r e
      (act_on-Advances s i w (find (has_id i.order_id) w.db.orders) refl)

-- Whatever faults the driver has, transitionOrder leaves the database as it was or has made exactly
-- one accepted move with its one event.
pub transition_order_atomic :
    (s : Session) (i : TransitionOrderInput) (w : Orders)
    → ((transition_order s i w).1.db ≡ w.db)
      ⊎ ((o : OrderRow) × (r : OrderResult) × Advances s i w.db (transition_order s i w).1.db o r)
unfolding transition_order transaction transition_in get_order_for_update
transition_order_atomic s i w =
    with_transaction-keeps
      (λ d. (d ≡ w.db) ⊎ ((o : OrderRow) × (r : OrderResult) × Advances s i w.db d o r)) other_error
      (transition_in s i) w (inl refl)
      (Ensures-map (Advanced s i (begun w))
        (λ _ v. (v.db ≡ w.db) ⊎ ((o : OrderRow) × (r : OrderResult) × Advances s i w.db v.db o r))
        (transition_in s i (begun w)) (λ r v h. inr (h.0, r, h.1))
        (act_on-Advances s i (begun w) (find (has_id i.order_id) w.db.orders) refl))

staff_lem : (s : Session) (o : OrderRow) → s.role ≢ customer → is_foreign s s.role o ≡ false
staff_lem s o n = ground (arith, n)

stale_lem :
    (x : Option ℕ) (v : ℕ) (o : OrderRow) → x ≡ some v → v ≢ o.version → is_stale x o ≡ some v
stale_lem x v o e n = ground (arith, e, n)

-- A member of staff who expects another version than the order has is answered with a version
-- conflict that names both versions and the status, and nothing changes.
transition_in-stale :
    (s : Session) (i : TransitionOrderInput) (w : Orders) (o : OrderRow) (v : ℕ)
    → find (has_id i.order_id) w.db.orders ≡ some o
    → s.role ≢ customer
    → i.expected_version ≡ some v
    → v ≢ o.version
    → transition_in s i w ≡ (err (version_conflict o.id v o.version o.status), w)
unfolding transition_in get_order_for_update
transition_in-stale s i w o v e n x d =
    rw (e, staff_lem s o n, stale_lem i.expected_version v o x d)

-- Two callers who read the same version cannot both move an order: once the first is accepted, a
-- member of staff with that expected version gets a version conflict with the new version and status,
-- and nothing changes.
pub transition_in-raced :
    (s s' : Session) (i i' : TransitionOrderInput) (w : Orders) (r : OrderResult) (v : ℕ)
    → (transition_in s i w).0 ≡ ok r
    → i.expected_version ≡ some v
    → i'.expected_version ≡ some v
    → i'.order_id ≡ i.order_id
    → s'.role ≢ customer
    → transition_in s' i' (transition_in s i w).1
      ≡ (err (version_conflict i.order_id v (v + 1) r.status), (transition_in s i w).1)
transition_in-raced s s' i i' w r v e x x' same n =
    let (o, h) = transition_in-Advances s i w r e in
    let w₁ = (transition_in s i w).1 in
    let o₁ = record o { status = r.status; version = o.version + 1 } in
    let seen = h.current v x in
    let found : find (has_id i'.order_id) w₁.db.orders ≡ some o₁ =
      rw (same, h.orders_moved) (find-advanced i.order_id r.status w.db.orders o h.found) in
    transition_in-stale s' i' w₁ o₁ v found n x' (omega (arith, seen))
    ∙ ap₂ (λ a b. (err (version_conflict a v b r.status), w₁))
        (find-has_id i.order_id w.db.orders o h.found) (omega (arith, seen))

-- ===== src/Orders/Revision/Writes.antt =====
-- The statements of `transitionOrder`, in apps/workflow-service/src/orders/orders.service.ts, that write
-- an accepted move.
use ecommerce_orderflow.Prelude.{
  ℕ, ◌+◌, ◌≡◌, refl, ap, ◌∙◌, List, [], ◌∷◌, ◌++◌, map, some, inl, inr, find, any, ◌&&◌, leb, arith,
  Bool-cases,
}
use ecommerce_orderflow.Runtime.{◌>>◌, pure}
use ecommerce_orderflow.Runtime.Laws.{Ensures, bind-Ensures}
use ecommerce_orderflow.Domain.Transitions.{OrderStatus}
use ecommerce_orderflow.Domain.StateMachine.{TransitionResult}
use ecommerce_orderflow.Orders.Tables.{OrderRow, OrderEventRow, OrderResult, Orders}
use ecommerce_orderflow.Orders.Repository.{
  int4_max, has_id, has_order, known_actor, advanced, update_status, insert_event,
}
use ecommerce_orderflow.Orders.Transition.{
  Session, TransitionOrderInput, count_transition, event_of, write_transition,
}

-- The row that `find` returns has the id.
pub find-has_id :
    (id : ℕ) (os : List OrderRow) (o : OrderRow) → find (has_id id) os ≡ some o → o.id ≡ id
find-has_id id [] o e = cc
find-has_id id (x ∷ os) o e = ground (arith, find-has_id id os o, e)

-- After the update, the same row is found, with its new status and version.
pub find-advanced :
    (id : ℕ) (st : OrderStatus) (os : List OrderRow) (o : OrderRow)
    → find (has_id id) os ≡ some o
    → find (has_id id) (map (advanced id st) os)
      ≡ some (record o { status = st; version = o.version + 1 })
find-advanced id st [] o e = cc
find-advanced id st (x ∷ os) o e = ground (arith, find-advanced id st os o, e)

-- What the statements after the gate do, when none throws.
abbrev pub Written :
    Session
    → TransitionOrderInput
    → OrderRow
    → TransitionResult
    → Orders
    → OrderResult
    → Orders
    → Type 0
Written s i o m w r w' =
    (r ≡ record { id = o.id; status = m.to; version = o.version + 1 })
    × (w'.db.orders ≡ map (advanced o.id m.to) w.db.orders)
    × (w'.db.order_events ≡ w.db.order_events ++ event_of s i o m ∷ [])
    × (w'.db.order_items ≡ w.db.order_items)

-- The state that the update leaves.
abbrev updated : ℕ → OrderStatus → Orders → Orders
updated id st w = record w { db = record w.db { orders = map (advanced id st) w.db.orders } }

update_status-updated :
    (id : ℕ) (st : OrderStatus) (w : Orders) (o : OrderRow)
    → find (has_id id) w.db.orders ≡ some o
    → Ensures (λ v w'. (v ≡ o.version + 1) × (w' ≡ updated id st w)) (update_status id st w)
unfolding update_status
update_status-updated id st w o e =
    elim (Bool-cases (any (λ x. has_id id x && leb int4_max x.version) w.db.orders)) [
      | inl h ↦ rw h tt
      | inr h ↦ rw (h, find-advanced id st w.db.orders o e) (refl, refl)
    ]

pub insert_event-appends :
    (e : OrderEventRow) (w : Orders)
    → Ensures
        (λ _ w'. w' ≡ record w { db = record w.db { order_events = w.db.order_events ++ e ∷ [] } })
        (insert_event e w)
unfolding insert_event
insert_event-appends e w =
    elim (Bool-cases (has_order e.order_id w.db && known_actor e.actor_id w.db)) [
      | inl h ↦ rw h refl
      | inr h ↦ rw h tt
    ]

pub write_transition-Written :
    (s : Session) (i : TransitionOrderInput) (o : OrderRow) (m : TransitionResult) (w : Orders)
    → find (has_id o.id) w.db.orders ≡ some o
    → Ensures (λ r w'. Written s i o m w r w') (write_transition s i o m w)
write_transition-Written s i o m w e =
    bind-Ensures (λ v w'. (v ≡ o.version + 1) × (w' ≡ updated o.id m.to w)) (Written s i o m w)
      (update_status o.id m.to)
      (λ v.
        insert_event (event_of s i o m)
        >> (count_transition (record { action = i.action; from = m.from; to = m.to; role = s.role })
            >> pure (record { id = o.id; status = m.to; version = v })))
      w (update_status-updated o.id m.to w o e)
      λ v w₁ h.
        bind-Ensures
          (λ _ w'. w' ≡ record w₁ {
            db = record w₁.db { order_events = w₁.db.order_events ++ event_of s i o m ∷ [] };
          })
          (Written s i o m w) (insert_event (event_of s i o m))
          (λ _.
            count_transition (record { action = i.action; from = m.from; to = m.to; role = s.role })
            >> pure (record { id = o.id; status = m.to; version = v }))
          w₁ (insert_event-appends (event_of s i o m) w₁)
          λ _ w₂ k. (
            ap (λ n. record { id = o.id; status = m.to; version = n }) h.0,
            ap (λ x. x.db.orders) k ∙ ap (λ x. x.db.orders) h.1,
            ap (λ x. x.db.order_events) k
                ∙ ap (λ x. x.db.order_events ++ event_of s i o m ∷ []) h.1,
            ap (λ x. x.db.order_items) k ∙ ap (λ x. x.db.order_items) h.1,
          )

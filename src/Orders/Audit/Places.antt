-- ===== src/Orders/Audit/Places.antt =====
-- The local transaction of `placeOrder`, apps/workflow-service/src/orders/orders.service.ts, starts the
-- audit trail of its order.
use ecommerce_orderflow.Prelude.{
  ℕ, ◌≡◌, refl, sym, ap, ◌∙◌, subst, List, [], ◌∷◌, ◌++◌, Bool, true, false, ◌||◌, any, ◌==◌,
  ==_self, ==_iff, All, All-map, Bool-cases, inl, inr, arith,
}
use ecommerce_orderflow.Runtime.{◌>>◌, pure}
use ecommerce_orderflow.Runtime.Laws.{Ensures, Ensures-map, bind-Ensures}
use ecommerce_orderflow.Domain.Transitions.{Role, pending}
use ecommerce_orderflow.Orders.Tables.{OrderRow, OrderEventRow, OrderItemRow, OrderDb, Orders}
use ecommerce_orderflow.Orders.Repository.{
  has_id, has_order, new_order, create_order, insert_item, insert_event,
}
use ecommerce_orderflow.Orders.Placement.{
  PricedLine, total_cents, item_of, insert_items, created_event, result_of, write_order,
}
use ecommerce_orderflow.Orders.Revision.Writes.{insert_event-appends}
use ecommerce_orderflow.Orders.Audit.{Trail, placed, events_of, Keyed, IsTold, IsAudited}
use ecommerce_orderflow.Orders.Audit.Moves.{events_of-append, events_of-own, All-append_one}

create_order-Made :
    (u t o : ℕ) (w : Orders)
    → Ensures
        (λ c w'.
          (c ≡ new_order u t o)
          × (w'.db.orders ≡ w.db.orders ++ new_order u t o ∷ [])
          × (w'.db.order_events ≡ w.db.order_events)
          × (has_order o w.db ≡ false))
        (create_order u t o w)
unfolding create_order
create_order-Made u t o w = ground arith

-- The orders and the events are as they were.
abbrev SameStory : {A : Type 0} → Orders → A → Orders → Type 0
SameStory w _ w' = (w'.db.orders ≡ w.db.orders) × (w'.db.order_events ≡ w.db.order_events)

insert_item-SameStory : (i : OrderItemRow) (w : Orders) → Ensures (SameStory w) (insert_item i w)
unfolding insert_item
insert_item-SameStory i w = ground arith

insert_items-SameStory :
    (o : ℕ) (ls : List PricedLine) (w : Orders) → Ensures (SameStory w) (insert_items o ls w)
unfolding insert_items
insert_items-SameStory o [] w = (refl, refl)
insert_items-SameStory o (l ∷ ls) w =
    bind-Ensures (SameStory w) (SameStory w) (insert_item (item_of o l)) (λ _. insert_items o ls) w
      (insert_item-SameStory (item_of o l) w)
      λ _ w₁ h.
        Ensures-map (SameStory w₁) (SameStory w) (insert_items o ls w₁)
          (λ _ w₂ k. (k.0 ∙ h.0, k.1 ∙ h.1)) (insert_items-SameStory o ls w₁)

-- What the transaction wrote.
pub record Wrote (order user : ℕ) (role : Role) (lines : List PricedLine) (d d' : OrderDb)
    : Type 0 where
  pub was_new : has_order order d ≡ false
  pub order_added : d'.orders ≡ d.orders ++ new_order user (total_cents lines) order ∷ []
  pub event_added :
      d'.order_events
      ≡ d.order_events ++ created_event user role (new_order user (total_cents lines) order) ∷ []

pub write_order-Wrote :
    (order user : ℕ) (role : Role) (lines : List PricedLine) (w : Orders)
    → Ensures (λ _ w'. Wrote order user role lines w.db w'.db) (write_order order user role lines w)
unfolding write_order
write_order-Wrote order user role lines w =
    let new = new_order user (total_cents lines) order in
    let ev = created_event user role new in
    bind-Ensures
      (λ c w'.
        (c ≡ new)
        × (w'.db.orders ≡ w.db.orders ++ new ∷ [])
        × (w'.db.order_events ≡ w.db.order_events)
        × (has_order order w.db ≡ false))
      (λ _ w'. Wrote order user role lines w.db w'.db) (create_order user (total_cents lines) order)
      (λ c.
        insert_items c.id lines >> (insert_event (created_event user role c) >> pure (result_of c)))
      w (create_order-Made user (total_cents lines) order w)
      λ c w₁ h.
        bind-Ensures (SameStory w₁) (λ _ w'. Wrote order user role lines w.db w'.db)
          (insert_items c.id lines)
          (λ _. insert_event (created_event user role c) >> pure (result_of c)) w₁
          (insert_items-SameStory c.id lines w₁)
          λ _ w₂ k.
            bind-Ensures
              (λ _ w'. w' ≡ record w₂ {
                db = record w₂.db {
                  order_events = w₂.db.order_events ++ created_event user role c ∷ [];
                };
              })
              (λ _ w'. Wrote order user role lines w.db w'.db)
              (insert_event (created_event user role c)) (λ _. pure (result_of c)) w₂
              (insert_event-appends (created_event user role c) w₂)
              λ _ w₃ m. record {
                was_new = h.3;
                order_added = ap (λ x. x.db.orders) m ∙ k.0 ∙ h.1;
                event_added =
                    ap (λ x. x.db.order_events) m
                    ∙ ap (λ es. es ++ created_event user role c ∷ []) (k.1 ∙ h.2)
                    ∙ ap (λ x. w.db.order_events ++ created_event user role x ∷ []) h.0;
              }

any-append_row :
    (k : ℕ) (os : List OrderRow) (o : OrderRow)
    → any (has_id k) (os ++ o ∷ []) ≡ (any (has_id k) os || (o.id == k))
any-append_row k [] o = ground arith
any-append_row k (x ∷ os) o = ground (arith, any-append_row k os o)

Keyed-append :
    (os : List OrderRow) (o : OrderRow)
    → Keyed os
    → any (has_id o.id) os ≡ false
    → Keyed (os ++ o ∷ [])
Keyed-append [] o k h = (refl, tt)
Keyed-append (x ∷ os) o k h =
    (ground (arith, any-append_row x.id os o, k.0, h), Keyed-append os o k.1 (ground (arith, h)))

-- No event tells of an order that is not there.
untold :
    (id : ℕ) (os : List OrderRow) (es : List OrderEventRow)
    → any (has_id id) os ≡ false
    → All (λ e. any (has_id e.order_id) os ≡ true) es
    → events_of id es ≡ []
untold id os [] n h = refl
untold id os (e ∷ es) n h = elim (Bool-cases (e.order_id == id)) [
  | inl k ↦ let x = subst (λ m. any (has_id m) os ≡ true) ((==_iff e.order_id id).0 k) h.0 in cc
  | inr k ↦ rw k (untold id os es n h.1)
]

IsTold-others :
    (ev : OrderEventRow) (es : List OrderEventRow) (os : List OrderRow)
    → any (has_id ev.order_id) os ≡ false
    → All (IsTold es) os
    → All (IsTold (es ++ ev ∷ [])) os
IsTold-others ev es [] n h = tt
IsTold-others ev es (x ∷ os) n h = (
  subst (λ l. Trail l x.version x.status)
      (sym (events_of-append x.id es ev ∙ rw (other (ground (arith, n))) refl)) h.0,
  IsTold-others ev es os (ground (arith, n)) h.1,
)
  where
    other : (x.id == ev.order_id) ≡ false → (ev.order_id == x.id) ≡ false
    other e = ground (arith, e)

has_order-Wrote :
    (order user : ℕ) (role : Role) (lines : List PricedLine) (d d' : OrderDb)
    → Wrote order user role lines d d'
    → (k : ℕ) → has_order k d' ≡ (has_order k d || (order == k))
has_order-Wrote order user role lines d d' h k =
    ap (any (has_id k)) h.order_added
    ∙ any-append_row k d.orders (new_order user (total_cents lines) order)

either_lem : (a b : Bool) → a ≡ true → (a || b) ≡ true
either_lem a b e = ground (arith, e)

own_lem : (k : ℕ) (d : OrderDb) → (has_order k d || (k == k)) ≡ true
own_lem k d = ground (arith, ==_self k)

pub Wrote-IsAudited :
    (order user : ℕ) (role : Role) (lines : List PricedLine) (d d' : OrderDb)
    → Wrote order user role lines d d'
    → IsAudited d
    → IsAudited d'
Wrote-IsAudited order user role lines d d' h a =
    let new = new_order user (total_cents lines) order in
    let ev = created_event user role new in
    let es = d.order_events in
    let first : IsTold (es ++ ev ∷ []) new =
      subst (λ l. Trail l 1 pending)
        (sym (
          events_of-own es ev
          ∙ ap (λ l. l ++ ev ∷ []) (untold order d.orders es h.was_new a.owned)))
        (placed ev refl refl refl) in
    record {
      keyed = subst Keyed (sym h.order_added) (Keyed-append d.orders new a.keyed h.was_new);
      told =
          rw (h.order_added, h.event_added)
            (All-append_one (IsTold (es ++ ev ∷ [])) d.orders new
              (IsTold-others ev es d.orders h.was_new a.told) first);
      owned = subst (All (λ e. has_order e.order_id d' ≡ true)) (sym h.event_added) (
          All-append_one (λ e. has_order e.order_id d' ≡ true) es ev
            (All-map (λ e. has_order e.order_id d ≡ true) (λ e. has_order e.order_id d' ≡ true)
              (λ e k.
                has_order-Wrote order user role lines d d' h e.order_id
                ∙ either_lem (has_order e.order_id d) (order == e.order_id) k)
              es a.owned)
            (has_order-Wrote order user role lines d d' h order ∙ own_lem order d));
    }

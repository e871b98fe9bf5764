-- ===== src/Orders/Audit/Moves.antt =====
-- `transitionOrder` of apps/workflow-service/src/orders/orders.service.ts keeps the audit trail.
use ecommerce_orderflow.Prelude.{
  ℕ, ◌+◌, ◌≡◌, refl, sym, ap, ◌∙◌, subst, List, [], ◌∷◌, ◌++◌, map, Bool, true, false, any, find,
  ◌==◌, ==_self, ==_iff, All, All-map, Bool-cases, inl, inr, some, arith, if◌then◌else◌,
}
use ecommerce_orderflow.Domain.Transitions.{OrderStatus}
use ecommerce_orderflow.Orders.Tables.{OrderRow, OrderEventRow, act, OrderResult, OrderDb}
use ecommerce_orderflow.Orders.Revision.Writes.{find-has_id}
use ecommerce_orderflow.Orders.Repository.{has_id, has_order, advanced}
use ecommerce_orderflow.Orders.Transition.{Session, TransitionOrderInput}
use ecommerce_orderflow.Orders.Revision.{Advances}
use ecommerce_orderflow.Orders.Audit.{Trail, moved, events_of, Keyed, IsTold, IsAudited}

pub events_of-append :
    (id : ℕ) (es : List OrderEventRow) (e : OrderEventRow)
    → events_of id (es ++ e ∷ [])
      ≡ (if e.order_id == id then events_of id es ++ e ∷ [] else events_of id es)
events_of-append id [] e = ground arith
events_of-append id (x ∷ es) e = ground (arith, events_of-append id es e)

pub All-append_one :
    {A : Type 0} (P : A → Type 0) (xs : List A) (x : A) → All P xs → P x → All P (xs ++ x ∷ [])
All-append_one P [] x h k = (k, tt)
All-append_one P (y ∷ ys) x h k = (h.0, All-append_one P ys x h.1 k)

any-advanced :
    (k id : ℕ) (st : OrderStatus) (os : List OrderRow)
    → any (has_id k) (map (advanced id st) os) ≡ any (has_id k) os
any-advanced k id st [] = refl
any-advanced k id st (o ∷ os) = ground (arith, any-advanced k id st os)

Keyed-advanced :
    (id : ℕ) (st : OrderStatus) (os : List OrderRow) → Keyed os → Keyed (map (advanced id st) os)
Keyed-advanced id st [] k = tt
Keyed-advanced id st (o ∷ os) k =
    (ground (arith, k.0, any-advanced o.id id st os), Keyed-advanced id st os k.1)

no_row :
    (id : ℕ) (os : List OrderRow) (o : OrderRow)
    → any (has_id id) os ≡ false
    → All (λ x. has_id id x ≡ true → x ≡ o) os
no_row id [] o h = tt
no_row id (x ∷ os) o h = (λ t. ground (arith, h, t), no_row id os o (ground (arith, h)))

-- Only one row has the id.
unique_row :
    (id : ℕ) (os : List OrderRow) (o : OrderRow)
    → Keyed os
    → find (has_id id) os ≡ some o
    → All (λ x. has_id id x ≡ true → x ≡ o) os
unique_row id [] o k e = tt
unique_row id (x ∷ os) o k e = elim (Bool-cases (x.id == id)) [
  | inl h ↦ (
    λ t. ground (arith, e, h),
    no_row id os o (subst (λ n. any (has_id n) os ≡ false) ((==_iff x.id id).0 h) k.0),
  )
  | inr h ↦ (λ t. cc, unique_row id os o k.1 (ground (arith, e, h)))
]

-- The event of an accepted request.
abbrev event_made : Session → TransitionOrderInput → OrderRow → OrderResult → OrderEventRow
event_made s i o r = record {
  order_id = i.order_id;
  from_status = some o.status;
  to_status = r.status;
  action = act i.action;
  actor_id = s.user_id;
  actor_role = some s.role;
  reason = i.reason;
}

IsTold-advanced :
    (id : ℕ) (st : OrderStatus) (ev : OrderEventRow) (es : List OrderEventRow) (o : OrderRow)
    (os : List OrderRow)
    → ev.order_id ≡ id
    → Trail (events_of id (es ++ ev ∷ [])) (o.version + 1) st
    → All (λ x. has_id id x ≡ true → x ≡ o) os
    → All (IsTold es) os
    → All (IsTold (es ++ ev ∷ [])) (map (advanced id st) os)
IsTold-advanced id st ev es o [] own t u h = tt
IsTold-advanced id st ev es o (x ∷ os) own t u h =
    (told_row (x.id == id) refl, IsTold-advanced id st ev es o os own t u.1 h.1)
  where
    not_own :
        (x.id == id) ≡ false
        → (if ev.order_id == x.id then events_of x.id es ++ ev ∷ [] else events_of x.id es)
          ≡ events_of x.id es
    not_own e = rw own (ground (arith, e))

    told_row :
        (b : Bool)
        → (x.id == id) ≡ b
        → IsTold
            (es ++ ev ∷ [])
            (if b then record x { status = st; version = x.version + 1 } else x)
    told_row true e =
        subst (λ n. Trail (events_of n (es ++ ev ∷ [])) (x.version + 1) st)
          (sym ((==_iff x.id id).0 e))
          (subst (λ n. Trail (events_of id (es ++ ev ∷ [])) (n + 1) st)
            (sym (ap (λ y. y.version) (u.0 e))) t)
    told_row false e =
        subst (λ l. Trail l x.version x.status) (sym (events_of-append x.id es ev ∙ not_own e)) h.0

find-All :
    (P : OrderRow → Type 0) (id : ℕ) (os : List OrderRow) (o : OrderRow)
    → find (has_id id) os ≡ some o
    → All P os
    → P o
find-All P id [] o e h = cc
find-All P id (x ∷ os) o e h = elim (Bool-cases (x.id == id)) [
  | inl k ↦ subst P (ground (arith, e, k)) h.0
  | inr k ↦ find-All P id os o (ground (arith, e, k)) h.1
]

pub events_of-own :
    (es : List OrderEventRow) (e : OrderEventRow)
    → events_of e.order_id (es ++ e ∷ []) ≡ events_of e.order_id es ++ e ∷ []
events_of-own es e = events_of-append e.order_id es e ∙ rw (==_self e.order_id) refl

find-any_id :
    (id : ℕ) (os : List OrderRow) (o : OrderRow)
    → find (has_id id) os ≡ some o
    → any (has_id id) os ≡ true
find-any_id id [] o e = cc
find-any_id id (x ∷ os) o e = ground (arith, e, find-any_id id os o)

same_orders :
    (s : Session) (i : TransitionOrderInput) (d d' : OrderDb) (o : OrderRow) (r : OrderResult)
    → Advances s i d d' o r
    → (k : ℕ) → has_order k d' ≡ has_order k d
same_orders s i d d' o r h k =
    ap (any (has_id k)) h.orders_moved ∙ any-advanced k i.order_id r.status d.orders

pub Advances-IsAudited :
    (s : Session) (i : TransitionOrderInput) (d d' : OrderDb) (o : OrderRow) (r : OrderResult)
    → Advances s i d d' o r
    → IsAudited d
    → IsAudited d'
Advances-IsAudited s i d d' o r h a =
    let id = i.order_id in
    let same = find-has_id id d.orders o h.found in
    let story =
      subst (λ n. Trail (events_of n d.order_events) o.version o.status) same
        (find-All (IsTold d.order_events) id d.orders o h.found a.told) in
    let ev = event_made s i o r in
    let longer =
      subst (λ l. Trail l (o.version + 1) r.status) (sym (events_of-own d.order_events ev))
        (moved ev i.action s.role story refl refl refl refl h.permitted) in
    let rows =
      IsTold-advanced id r.status ev d.order_events o d.orders refl longer
        (unique_row id d.orders o a.keyed h.found) a.told in
    record {
      keyed = subst Keyed (sym h.orders_moved) (Keyed-advanced id r.status d.orders a.keyed);
      told = rw (h.orders_moved, h.event_appended) rows;
      owned = subst (All (λ e. has_order e.order_id d' ≡ true)) (sym h.event_appended) (
          All-append_one (λ e. has_order e.order_id d' ≡ true) d.order_events ev
            (All-map (λ e. has_order e.order_id d ≡ true) (λ e. has_order e.order_id d' ≡ true)
              (λ e k. same_orders s i d d' o r h e.order_id ∙ k) d.order_events a.owned)
            (same_orders s i d d' o r h id ∙ find-any_id id d.orders o h.found));
    }

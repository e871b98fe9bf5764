-- ===== src/Web/Detail/Offers.antt =====
-- The buttons of apps/web/app/orders/[id]/page.tsx against the gate of packages/domain/src.
use ecommerce_orderflow.Prelude.{
  ◌≡◌, refl, sym, ap, ◌∙◌, ◌↔◌, any, map, Bool, true, false, arith, String, List, Option, none,
  some,
}
use ecommerce_orderflow.Domain.Transitions.{
  OrderStatus, Role, customer, ops, business_admin, OrderAction, same_action,
}
use ecommerce_orderflow.Domain.StateMachine.{Outcome, moved, refused, apply_transition}
use ecommerce_orderflow.Domain.Gate.{Permits, input, result, apply_transition-moved_iff}
use ecommerce_orderflow.Web.Detail.{
  Query, DetailState, Button, OrderView, OrderDetail, order_shown, actions, button, show_order,
  without_error, by_error, order_detail_page,
}

abbrev is_moved : Outcome → Bool
is_moved (moved m) = true
is_moved (refused e) = false

-- Whether a button of the list takes the action.
abbrev pub offers : OrderAction → List Button → Bool
offers a = any (λ b. same_action b.action a)

offers-is_moved :
    (r : Role) (s : OrderStatus) (a : OrderAction) (busy : Bool)
    → offers a (map (button busy) (actions (some r) s)) ≡ is_moved (apply_transition (input s a r))
unfolding actions apply_transition
offers-is_moved customer s a busy = ground arith
offers-is_moved ops s a busy = ground arith
offers-is_moved business_admin s a busy = ground arith

is_moved-Permits :
    (r : Role) (s : OrderStatus) (a : OrderAction) (o : Outcome)
    → apply_transition (input s a r) ≡ o
    → is_moved o ≡ true
    → (t : OrderStatus) × Permits r s a t
is_moved-Permits r s a (moved m) e h = (m.to, ((apply_transition-moved_iff (input s a r) m).0 e).2)
is_moved-Permits r s a (refused x) e h = cc

shown-buttons :
    (role : Option Role) (busy : Bool) (st : DetailState) (x : Option (Option OrderDetail))
    (v : OrderView)
    → show_order role busy st x ≡ order_shown v
    → v.buttons ≡ map (button busy) (actions role v.status)
shown-buttons role busy st none v e = cc
shown-buttons role busy st (some none) v e = cc
shown-buttons role busy st (some (some o)) v e = ground (arith, e)

without_error-buttons :
    (fetching : Bool) (role : Option Role) (busy : Bool) (st : DetailState)
    (x : Option (Option OrderDetail)) (v : OrderView)
    → without_error fetching role busy st x ≡ order_shown v
    → v.buttons ≡ map (button busy) (actions role v.status)
without_error-buttons fetching role busy st none v e = ground (arith, e)
without_error-buttons true role busy st (some x) v e = shown-buttons role busy st (some x) v e
without_error-buttons false role busy st (some x) v e = shown-buttons role busy st (some x) v e

page-buttons :
    (x : Option String) (q : Query) (role : Option Role) (busy : Bool) (st : DetailState)
    (v : OrderView)
    → by_error x q role busy st ≡ order_shown v
    → v.buttons ≡ map (button busy) (actions role v.status)
page-buttons (some m) q role busy st v e = cc
page-buttons none q role busy st v e = without_error-buttons q.fetching role busy st q.loaded v e

-- When the page shows an order to a session with a role, it has a button for an action exactly when
-- the lifecycle permits the role to take that action from the order's status.
pub order_detail_page-offers_iff :
    (q : Query) (r : Role) (busy : Bool) (st : DetailState) (v : OrderView) (a : OrderAction)
    → order_detail_page q (some r) busy st ≡ order_shown v
    → (any (λ b. same_action b.action a) v.buttons ≡ true)
      ↔ ((t : OrderStatus) × Permits r v.status a t)
unfolding order_detail_page
order_detail_page-offers_iff q r busy st v a e =
    let same =
      ap (offers a) (page-buttons q.error q (some r) busy st v e)
      ∙ offers-is_moved r v.status a busy in
    (
      λ h.
          is_moved-Permits r v.status a (apply_transition (input v.status a r)) refl (sym same ∙ h),
      λ (t, p).
          same
          ∙ ap is_moved (
              (apply_transition-moved_iff (input v.status a r) (result v.status t a)).1
                (refl, refl, p)),
    )

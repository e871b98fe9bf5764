-- ===== src/Domain/Tests.antt =====
-- Runs of the state machine of packages/domain/src, as in its test files, and the theorems at
-- concrete inputs.
use ecommerce_orderflow.Prelude.{◌≡◌, refl, ◌↔◌, ◌≤◌, true, false, ℕ}
use ecommerce_orderflow.Domain.Transitions.{
  pending, packed, shipped, cancelled, returned, delivered, Role, customer, ops, business_admin,
  OrderAction, confirm, pack, cancel, ship, return, can_transition, is_terminal,
}
use ecommerce_orderflow.Domain.StateMachine.{
  illegal_transition, forbidden_transition, TransitionResult, moved, refused, apply_transition,
}
use ecommerce_orderflow.Domain.Gate.{
  Permits, RefusedFor, input, result, apply_transition-moved_iff, apply_transition-refused,
}
use ecommerce_orderflow.Domain.Lifecycle.{History, start, advance, History-bounded, is_terminal_iff}

forbids_customer_confirm :
    apply_transition (input pending confirm customer)
    ≡ refused (forbidden_transition customer confirm pending)
unfolding apply_transition
forbids_customer_confirm = refl

illegal_ship_delivered :
    apply_transition (input delivered ship business_admin)
    ≡ refused (illegal_transition delivered ship)
unfolding apply_transition
illegal_ship_delivered = refl

delivered_not_terminal : (is_terminal delivered ≡ false) × (can_transition delivered return ≡ true)
unfolding is_terminal can_transition
delivered_not_terminal = (refl, refl)

apply_transition-moved_iff_example :
    (apply_transition (input shipped cancel business_admin)
      ≡ moved (result shipped cancelled cancel))
    ↔ ((shipped ≡ shipped) × (cancel ≡ cancel) × Permits business_admin shipped cancel cancelled)
apply_transition-moved_iff_example =
    apply_transition-moved_iff (input shipped cancel business_admin)
      (result shipped cancelled cancel)

apply_transition-refused_example :
    RefusedFor (input pending confirm customer) (forbidden_transition customer confirm pending)
apply_transition-refused_example =
    apply_transition-refused (input pending confirm customer)
      (forbidden_transition customer confirm pending) forbids_customer_confirm

two_steps : History pending 2 packed
unfolding apply_transition
two_steps = advance pack ops (advance confirm ops start refl) refl

History-bounded_example : (2 ≤ 5) × (pending ≡ packed → ◌≡◌ {A = ℕ} 2 0)
History-bounded_example = History-bounded two_steps

is_terminal_iff_example : (is_terminal returned ≡ true) ↔ (
    (a : OrderAction) (r : Role) (m : TransitionResult)
    → ¬ (apply_transition (input returned a r) ≡ moved m))
is_terminal_iff_example = is_terminal_iff returned

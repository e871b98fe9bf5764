-- ===== src/Domain/Lifecycle.antt =====
-- Histories of an order under the gate of packages/domain/src: termination and terminal statuses.
use ecommerce_orderflow.Prelude.{
  ℕ, suc, ◌+◌, ◌≤◌, ◌<◌, ◌≡◌, refl, ap, ◌↔◌, inl, inr, true, false, arith, Bool-cases,
}
use ecommerce_orderflow.Domain.Transitions.{
  OrderStatus, pending, confirmed, packed, shipped, delivered, cancelled, returned, Role,
  business_admin, OrderAction, confirm, pack, ship, deliver, return, is_terminal,
}
use ecommerce_orderflow.Domain.StateMachine.{TransitionResult, moved, apply_transition}
use ecommerce_orderflow.Domain.Gate.{
  Permits, confirming, packing, shipping, delivering, returning, withdrawing, cancelling_confirmed,
  cancelling_packed, force_cancelling, admin_staff, input, result, apply_transition-moved_iff,
}

-- `n` accepted transitions, made by anybody, lead from one status to the other.
pub data History (s : OrderStatus) : ℕ → OrderStatus → Type 0 where
  start : History s 0 s
  advance :
      {n : ℕ} {t u : OrderStatus} (a : OrderAction) (r : Role)
      → History s n t
      → apply_transition (input t a r) ≡ moved (result t u a)
      → History s (suc n) u

-- How far an order has come.
abbrev rank : OrderStatus → ℕ
rank pending = 0
rank confirmed = 1
rank packed = 2
rank shipped = 3
rank delivered = 4
rank cancelled = 5
rank returned = 5

Permits-rank : {r : Role} {s t : OrderStatus} {a : OrderAction} → Permits r s a t → rank s < rank t
Permits-rank (confirming h) = omega arith
Permits-rank (packing h) = omega arith
Permits-rank (shipping h) = omega arith
Permits-rank (delivering h) = omega arith
Permits-rank (returning h) = omega arith
Permits-rank withdrawing = omega arith
Permits-rank (cancelling_confirmed h) = omega arith
Permits-rank (cancelling_packed h) = omega arith
Permits-rank force_cancelling = omega arith

moved-Permits :
    {t u : OrderStatus} (a : OrderAction) (r : Role)
    → apply_transition (input t a r) ≡ moved (result t u a)
    → Permits r t a u
moved-Permits {t} {u} a r e = ((apply_transition-moved_iff (input t a r) (result t u a)).0 e).2

History-rank : {s t : OrderStatus} {n : ℕ} → History s n t → rank s + n ≤ rank t
History-rank start = omega arith
History-rank (advance a r h e) = omega (arith, History-rank h, Permits-rank (moved-Permits a r e))

rank-le : (s : OrderStatus) → rank s ≤ 5
rank-le pending = omega arith
rank-le _ = omega arith

-- However an order is worked, at most five transitions are accepted from any status, and no status
-- comes back.
pub History-bounded : {s t : OrderStatus} {n : ℕ} → History s n t → (n ≤ 5) × (s ≡ t → n ≡ 0)
History-bounded {s} {t} h =
    (omega (arith, History-rank h, rank-le t), λ e. omega (arith, History-rank h, ap rank e))

Permits-not-is_terminal :
    {r : Role} {s t : OrderStatus} {a : OrderAction} → Permits r s a t → is_terminal s ≡ false
unfolding is_terminal
Permits-not-is_terminal (confirming h) = refl
Permits-not-is_terminal (packing h) = refl
Permits-not-is_terminal (shipping h) = refl
Permits-not-is_terminal (delivering h) = refl
Permits-not-is_terminal (returning h) = refl
Permits-not-is_terminal withdrawing = refl
Permits-not-is_terminal (cancelling_confirmed h) = refl
Permits-not-is_terminal (cancelling_packed h) = refl
Permits-not-is_terminal force_cancelling = refl

live_status :
    (s : OrderStatus)
    → is_terminal s ≡ false
    → (a : OrderAction) × (t : OrderStatus) × Permits business_admin s a t
unfolding is_terminal
live_status pending e = (confirm, confirmed, confirming admin_staff)
live_status confirmed e = (pack, packed, packing admin_staff)
live_status packed e = (ship, shipped, shipping admin_staff)
live_status shipped e = (deliver, delivered, delivering admin_staff)
live_status delivered e = (return, returned, returning admin_staff)
live_status cancelled e = cc
live_status returned e = cc

abbrev IsStuck : OrderStatus → Type 0
IsStuck s =
    (a : OrderAction) (r : Role) (m : TransitionResult)
    → ¬ (apply_transition (input s a r) ≡ moved m)

is_terminal-IsStuck : (s : OrderStatus) → is_terminal s ≡ true → IsStuck s
is_terminal-IsStuck s h a r m e =
    let p = Permits-not-is_terminal ((apply_transition-moved_iff (input s a r) m).0 e).2 in cc

IsStuck-is_terminal : (s : OrderStatus) → IsStuck s → is_terminal s ≡ true
IsStuck-is_terminal s h = elim (Bool-cases (is_terminal s)) [
  | inl e ↦ e
  | inr e ↦
      let (a, t, p) = live_status s e in
      absurd (
        h a business_admin (result s t a) (
          (apply_transition-moved_iff (input s a business_admin) (result s t a)).1 (refl, refl, p)))
]

-- A status is terminal exactly when the gate refuses every action of every role from it.
pub is_terminal_iff :
    (s : OrderStatus)
    → (is_terminal s ≡ true) ↔ (
        (a : OrderAction) (r : Role) (m : TransitionResult)
        → ¬ (apply_transition (input s a r) ≡ moved m))
is_terminal_iff s = (is_terminal-IsStuck s, IsStuck-is_terminal s)

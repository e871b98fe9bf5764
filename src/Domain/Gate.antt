-- ===== src/Domain/Gate.antt =====
-- What the gate of packages/domain/src/state-machine.ts decides, against the order lifecycle stated
-- as an inductive relation.
use ecommerce_orderflow.Prelude.{
  ◌≡◌, refl, subst, ◌↔◌, ◌⊎◌, inl, inr, true, false, arith, Bool-cases,
}
use ecommerce_orderflow.Domain.Transitions.{
  OrderStatus, pending, confirmed, packed, shipped, delivered, cancelled, returned, Role, customer,
  ops, business_admin, OrderAction, confirm, pack, ship, deliver, cancel, return, can_transition,
}
use ecommerce_orderflow.Domain.StateMachine.{
  DomainError, illegal_transition, forbidden_transition, TransitionInput, TransitionResult, Outcome,
  moved, refused, apply_transition,
}

-- Staff work orders forward; customers do not.
pub data IsStaff : Role → Type 0 where
  ops_staff : IsStaff ops
  admin_staff : IsStaff business_admin

-- The lifecycle: who may take which action, from where, to where.
pub data Permits : Role → OrderStatus → OrderAction → OrderStatus → Type 0 where
  confirming : {r : Role} → IsStaff r → Permits r pending confirm confirmed
  packing : {r : Role} → IsStaff r → Permits r confirmed pack packed
  shipping : {r : Role} → IsStaff r → Permits r packed ship shipped
  delivering : {r : Role} → IsStaff r → Permits r shipped deliver delivered
  returning : {r : Role} → IsStaff r → Permits r delivered return returned
  withdrawing : {r : Role} → Permits r pending cancel cancelled
  cancelling_confirmed : {r : Role} → IsStaff r → Permits r confirmed cancel cancelled
  cancelling_packed : {r : Role} → IsStaff r → Permits r packed cancel cancelled
  force_cancelling : Permits business_admin shipped cancel cancelled

ruleset lifecycle = (
  confirming, packing, shipping, delivering, returning, withdrawing, cancelling_confirmed,
  cancelling_packed, force_cancelling, ops_staff, admin_staff,
)

abbrev pub input : OrderStatus → OrderAction → Role → TransitionInput
input s a r = record { current = s; action = a; role = r }

abbrev pub result : OrderStatus → OrderStatus → OrderAction → TransitionResult
result s t a = record { from = s; to = t; action = a }

-- A permitted move is made, with its source, its target and its action in the result.
Permits-moved :
    {s t : OrderStatus} {a : OrderAction} {r : Role}
    → Permits r s a t
    → apply_transition (input s a r) ≡ moved (result s t a)
unfolding apply_transition
Permits-moved (confirming ops_staff) = refl
Permits-moved (confirming admin_staff) = refl
Permits-moved (packing ops_staff) = refl
Permits-moved (packing admin_staff) = refl
Permits-moved (shipping ops_staff) = refl
Permits-moved (shipping admin_staff) = refl
Permits-moved (delivering ops_staff) = refl
Permits-moved (delivering admin_staff) = refl
Permits-moved (returning ops_staff) = refl
Permits-moved (returning admin_staff) = refl
Permits-moved (withdrawing {r = customer}) = refl
Permits-moved (withdrawing {r = ops}) = refl
Permits-moved (withdrawing {r = business_admin}) = refl
Permits-moved (cancelling_confirmed ops_staff) = refl
Permits-moved (cancelling_confirmed admin_staff) = refl
Permits-moved (cancelling_packed ops_staff) = refl
Permits-moved (cancelling_packed admin_staff) = refl
Permits-moved force_cancelling = refl

-- What an outcome says of the lifecycle.
abbrev Sound : OrderStatus → OrderAction → Role → Outcome → Type 0
Sound s a r (moved m) = (m.from ≡ s) × (m.action ≡ a) × Permits r s a m.to
Sound s a r (refused e) = Unit {0}

gate-Sound :
    (r : Role) (s : OrderStatus) (a : OrderAction) → Sound s a r (apply_transition (input s a r))
unfolding apply_transition
gate-Sound customer pending cancel = (refl, refl, search lifecycle)
gate-Sound customer confirmed confirm = tt
gate-Sound customer packed confirm = tt
gate-Sound customer shipped confirm = tt
gate-Sound customer delivered confirm = tt
gate-Sound customer cancelled confirm = tt
gate-Sound customer returned confirm = tt
gate-Sound ops pending confirm = (refl, refl, search lifecycle)
gate-Sound ops pending cancel = (refl, refl, search lifecycle)
gate-Sound ops confirmed pack = (refl, refl, search lifecycle)
gate-Sound ops confirmed cancel = (refl, refl, search lifecycle)
gate-Sound ops packed ship = (refl, refl, search lifecycle)
gate-Sound ops packed cancel = (refl, refl, search lifecycle)
gate-Sound ops shipped deliver = (refl, refl, search lifecycle)
gate-Sound ops delivered return = (refl, refl, search lifecycle)
gate-Sound ops cancelled confirm = tt
gate-Sound ops returned confirm = tt
gate-Sound business_admin pending confirm = (refl, refl, search lifecycle)
gate-Sound business_admin pending cancel = (refl, refl, search lifecycle)
gate-Sound business_admin confirmed pack = (refl, refl, search lifecycle)
gate-Sound business_admin confirmed cancel = (refl, refl, search lifecycle)
gate-Sound business_admin packed ship = (refl, refl, search lifecycle)
gate-Sound business_admin packed cancel = (refl, refl, search lifecycle)
gate-Sound business_admin shipped deliver = (refl, refl, search lifecycle)
gate-Sound business_admin shipped cancel = (refl, refl, search lifecycle)
gate-Sound business_admin delivered return = (refl, refl, search lifecycle)
gate-Sound business_admin cancelled confirm = tt
gate-Sound business_admin returned confirm = tt
gate-Sound _ _ _ = tt

-- `applyTransition` returns exactly the moves that the lifecycle permits to the caller's role, and
-- reports the source status, the target and the action of the move.
pub apply_transition-moved_iff :
    (i : TransitionInput) (m : TransitionResult)
    → (apply_transition i ≡ moved m)
      ↔ ((m.from ≡ i.current) × (m.action ≡ i.action) × Permits i.role i.current i.action m.to)
apply_transition-moved_iff i m = (forth, back)
  where
    forth :
        apply_transition i ≡ moved m
        → (m.from ≡ i.current) × (m.action ≡ i.action) × Permits i.role i.current i.action m.to
    forth e = subst (Sound i.current i.action i.role) e (gate-Sound i.role i.current i.action)

    back :
        (m.from ≡ i.current) × (m.action ≡ i.action) × Permits i.role i.current i.action m.to
        → apply_transition i ≡ moved m
    back (f, a, p) = rw (Permits-moved p) (ground arith)

-- A move that the workflow knows is open to administrators.
can_transition-Permits :
    (s : OrderStatus) (a : OrderAction)
    → can_transition s a ≡ true
    → (t : OrderStatus) × Permits business_admin s a t
unfolding can_transition
can_transition-Permits pending confirm e = (confirmed, search lifecycle)
can_transition-Permits pending cancel e = (cancelled, search lifecycle)
can_transition-Permits confirmed pack e = (packed, search lifecycle)
can_transition-Permits confirmed cancel e = (cancelled, search lifecycle)
can_transition-Permits packed ship e = (shipped, search lifecycle)
can_transition-Permits packed cancel e = (cancelled, search lifecycle)
can_transition-Permits shipped deliver e = (delivered, search lifecycle)
can_transition-Permits shipped cancel e = (cancelled, search lifecycle)
can_transition-Permits delivered return e = (returned, search lifecycle)
can_transition-Permits cancelled confirm e = cc
can_transition-Permits returned confirm e = cc
can_transition-Permits _ _ e = cc

can_transition-illegal :
    (s : OrderStatus) (a : OrderAction) (r : Role)
    → can_transition s a ≡ false
    → apply_transition (input s a r) ≡ refused (illegal_transition s a)
unfolding can_transition apply_transition
can_transition-illegal s a r e = ground arith

can_transition-forbidden :
    (s : OrderStatus) (a : OrderAction) (r : Role) (x : DomainError)
    → can_transition s a ≡ true
    → apply_transition (input s a r) ≡ refused x
    → x ≡ forbidden_transition r a s
unfolding can_transition apply_transition
can_transition-forbidden s a r x e f = ground arith

not-Permits :
    {s t : OrderStatus} {a : OrderAction} {r : Role} (x : DomainError)
    → apply_transition (input s a r) ≡ refused x
    → ¬ Permits r s a t
not-Permits x e p = let q = Permits-moved p in cc

-- Why a call is refused: the move is kept from this role and open to some other one, or nobody can
-- make it.
abbrev pub RefusedFor : TransitionInput → DomainError → Type 0
RefusedFor i x =
    ((x ≡ forbidden_transition i.role i.action i.current)
      × ((r : Role) × (t : OrderStatus) × Permits r i.current i.action t)
      × ((t : OrderStatus) → ¬ Permits i.role i.current i.action t))
    ⊎ ((x ≡ illegal_transition i.current i.action)
        × ((r : Role) (t : OrderStatus) → ¬ Permits r i.current i.action t))

-- `applyTransition` throws `ForbiddenTransitionError` only for a move that another role may make and
-- the caller's may not, and `IllegalTransitionError` only for a move that no role may make.
pub apply_transition-refused :
    (i : TransitionInput) (x : DomainError) → apply_transition i ≡ refused x → RefusedFor i x
apply_transition-refused i x e = elim (Bool-cases (can_transition i.current i.action)) [
  | inl c ↦
      let (t, p) = can_transition-Permits i.current i.action c in
      inl (
        can_transition-forbidden i.current i.action i.role x c e,
        (business_admin, t, p),
        λ t. not-Permits x e,
      )
  | inr c ↦
      inr (illegal_only c, λ r t. not-Permits _ (can_transition-illegal i.current i.action r c))
]
  where
    illegal_only :
        can_transition i.current i.action ≡ false → x ≡ illegal_transition i.current i.action
    illegal_only c = let q = can_transition-illegal i.current i.action i.role c in cc

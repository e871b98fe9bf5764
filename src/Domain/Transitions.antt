-- ===== src/Domain/Transitions.antt =====
-- order-status.ts, roles.ts and transitions.ts of packages/domain/src.
use ecommerce_orderflow.Prelude.{
  ℕ, Bool, not, ◌&&◌, ◌==◌, Option, List, [], ◌∷◌, find, any, is_some,
}

pub data OrderStatus : Type 0 where
  pending confirmed packed shipped delivered cancelled returned : OrderStatus

-- `ORDER_STATUSES`
abbrev pub order_statuses : List OrderStatus
order_statuses = pending ∷ confirmed ∷ packed ∷ shipped ∷ delivered ∷ cancelled ∷ returned ∷ []

pub data Role : Type 0 where
  customer ops business_admin : Role

-- `ROLES`
abbrev pub roles : List Role
roles = customer ∷ ops ∷ business_admin ∷ []

pub data OrderAction : Type 0 where
  confirm pack ship deliver cancel return : OrderAction

pub record TransitionRule : Type 0 where
  pub action : OrderAction
  pub from : OrderStatus
  pub to : OrderStatus
  pub allowed_roles : List Role

abbrev rule : OrderAction → OrderStatus → OrderStatus → List Role → TransitionRule
rule a f t rs = record { action = a; from = f; to = t; allowed_roles = rs }

-- `TRANSITIONS`
unfoldable pub transitions : List TransitionRule
transitions =
    rule confirm pending confirmed (ops ∷ business_admin ∷ [])
    ∷ rule pack confirmed packed (ops ∷ business_admin ∷ [])
    ∷ rule ship packed shipped (ops ∷ business_admin ∷ [])
    ∷ rule deliver shipped delivered (ops ∷ business_admin ∷ [])
    ∷ rule cancel pending cancelled (customer ∷ ops ∷ business_admin ∷ [])
    ∷ rule cancel confirmed cancelled (ops ∷ business_admin ∷ [])
    ∷ rule cancel packed cancelled (ops ∷ business_admin ∷ [])
    ∷ rule cancel shipped cancelled (business_admin ∷ [])
    ∷ rule return delivered returned (ops ∷ business_admin ∷ [])
    ∷ []

-- The string literals are compared by their place in the source's lists.
abbrev status_index : OrderStatus → ℕ
status_index pending = 0
status_index confirmed = 1
status_index packed = 2
status_index shipped = 3
status_index delivered = 4
status_index cancelled = 5
status_index returned = 6

abbrev action_index : OrderAction → ℕ
action_index confirm = 0
action_index pack = 1
action_index ship = 2
action_index deliver = 3
action_index cancel = 4
action_index return = 5

abbrev role_index : Role → ℕ
role_index customer = 0
role_index ops = 1
role_index business_admin = 2

abbrev pub same_status : OrderStatus → OrderStatus → Bool
same_status a b = status_index a == status_index b

abbrev pub same_action : OrderAction → OrderAction → Bool
same_action a b = action_index a == action_index b

abbrev pub same_role : Role → Role → Bool
same_role a b = role_index a == role_index b

-- `allowedRoles.includes(role)`
abbrev pub includes_role : Role → List Role → Bool
includes_role r = any (λ a. same_role a r)

unfoldable pub find_rule : OrderStatus → OrderAction → Option TransitionRule
unfolding transitions
find_rule from action =
    find (λ rule. same_status rule.from from && same_action rule.action action) transitions

unfoldable pub can_transition : OrderStatus → OrderAction → Bool
unfolding find_rule
can_transition from action = is_some (find_rule from action)

unfoldable pub is_terminal : OrderStatus → Bool
unfolding transitions
is_terminal status = not (any (λ rule. same_status rule.from status) transitions)

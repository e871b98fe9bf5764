-- ===== src/Web/Detail.antt =====
-- apps/web/app/orders/[id]/page.tsx.
pub mod Offers
use ecommerce_orderflow.Prelude.{
  ℕ, ◌+◌, ◌*◌, String, List, [], ◌∷◌, map, Bool, true, false, ◌&&◌, not, Option, none, some, filter,
  is_some, if◌then◌else◌,
}
use ecommerce_orderflow.Domain.Transitions.{
  OrderStatus, Role, OrderAction, confirm, pack, ship, deliver, cancel, return, TransitionRule,
  transitions, same_status, includes_role,
}

-- The result of the query `OrderDetail`, as far as the page reads it.
pub record DetailLine : Type 0 where
  pub name : String
  pub sku : String
  pub quantity : ℕ
  pub unit_price_cents : ℕ

pub record TimelineEvent : Type 0 where
  pub action : String
  pub from_status : Option String
  pub to_status : String
  pub actor_role : Option String

pub record OrderDetail : Type 0 where
  pub id : String
  pub customer_name : String
  pub status : OrderStatus
  pub total_cents : ℕ
  pub items : List DetailLine
  pub events : List TimelineEvent

-- The state of a query; `loaded` is `data?.orders_by_pk` once there is data.
pub record Query : Type 0 where
  pub error : Option String
  pub fetching : Bool
  pub loaded : Option (Option OrderDetail)

-- `CombinedError`: the messages of the GraphQL errors, and its own.
pub record CombinedError : Type 0 where
  pub graphql_errors : List String
  pub message : String

-- `error.graphQLErrors[0]?.message ?? error.message`
abbrev pub error_text : CombinedError → String
error_text e = first_or e.graphql_errors e.message
  where
    first_or : List String → String → String
    first_or [] m = m
    first_or (x ∷ xs) m = x

-- `ACTION_LABELS`
abbrev pub action_label : OrderAction → String
action_label confirm = "Confirm"
action_label pack = "Pack"
action_label ship = "Ship"
action_label deliver = "Mark delivered"
action_label cancel = "Cancel order"
action_label return = "Process return"

-- The rules whose actions the page offers to the session's role.
unfoldable pub actions : Option Role → OrderStatus → List TransitionRule
unfolding transitions
actions none status = []
actions (some role) status =
    filter (λ rule. same_status rule.from status && includes_role role rule.allowed_roles)
      transitions

pub record Button : Type 0 where
  pub action : OrderAction
  pub label : String
  pub disabled : Bool

pub record ShownLine : Type 0 where
  pub name : String
  pub sku : String
  pub quantity : ℕ
  pub price_cents : ℕ

abbrev pub shown_line : DetailLine → ShownLine
shown_line i = record {
  name = i.name;
  sku = i.sku;
  quantity = i.quantity;
  price_cents = i.unit_price_cents * i.quantity;
}

-- `setActionError`, and the calls of `refetch`.
pub record DetailState : Type 0 where
  pub action_error : Option String
  pub refetches : ℕ

pub record OrderView : Type 0 where
  pub status : OrderStatus
  pub buttons : List Button
  pub action_error : Option String
  pub lines : List ShownLine
  pub total_cents : ℕ
  pub events : List TimelineEvent

pub data Page : Type 0 where
  load_failed : String → Page
  loading order_missing : Page
  order_shown : OrderView → Page

abbrev pub button : Bool → TransitionRule → Button
button busy rule = record {
  action = rule.action;
  label = action_label rule.action;
  disabled = busy;
}

abbrev pub order_view : Option Role → Bool → DetailState → OrderDetail → OrderView
order_view role busy state o = record {
  status = o.status;
  buttons = map (button busy) (actions role o.status);
  action_error = state.action_error;
  lines = map shown_line o.items;
  total_cents = o.total_cents;
  events = o.events;
}

abbrev pub show_order : Option Role → Bool → DetailState → Option (Option OrderDetail) → Page
show_order role busy state (some (some o)) = order_shown (order_view role busy state o)
show_order role busy state _ = order_missing

abbrev pub without_error :
    Bool → Option Role → Bool → DetailState → Option (Option OrderDetail) → Page
without_error fetching role busy state loaded =
    if fetching && not (is_some loaded) then loading else show_order role busy state loaded

abbrev pub by_error : Option String → Query → Option Role → Bool → DetailState → Page
by_error (some message) query role busy state = load_failed message
by_error none query role busy state = without_error query.fetching role busy state query.loaded

-- The page, by the session's role, whether a transition is under way, and the page's state.
unfoldable pub order_detail_page : Query → Option Role → Bool → DetailState → Page
unfolding actions
order_detail_page query role busy state = by_error query.error query role busy state

-- `runAction`, by the error of the mutation.
unfoldable pub run_action : Option CombinedError → DetailState → DetailState
run_action none state = record { action_error = none; refetches = state.refetches + 1 }
run_action (some e) state = record state { action_error = some (error_text e) }

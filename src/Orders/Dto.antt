-- ===== src/Orders/Dto.antt =====
-- The schemas of apps/workflow-service/src/orders/dto.ts. A body that is no JSON of the schema's shape
-- never becomes one here; a number is an integer.
use ecommerce_orderflow.Prelude.{
  ℕ, String, str_eq, List, [], ◌∷◌, Bool, ◌&&◌, Option, none, some, ℤ, pos, leb_ℤ, pos_part, ltb,
  leb, length, if◌then◌else◌,
}
use mathlib.Core.Option.{bind}
use ecommerce_orderflow.Domain.Transitions.{
  OrderAction, confirm, pack, ship, deliver, cancel, return,
}
use ecommerce_orderflow.Inventory.Service.Record.{Line}
use ecommerce_orderflow.Orders.Transition.{TransitionOrderInput}
use ecommerce_orderflow.Orders.Placement.{PlaceOrderInput}

-- What the schemas take from zod and JavaScript: `uuid()` with the number that a UUID writes, `trim()`
-- and the `length` of a string.
pub record Text : Type 0 where
  pub uuid : String → Option ℕ
  pub trim : String → String
  pub size : String → ℕ

pub record LineBody : Type 0 where
  pub product_id : String
  pub quantity : ℤ

pub record PlaceOrderBody : Type 0 where
  pub items : List LineBody
  pub idempotency_key : Option String

pub record TransitionOrderBody : Type 0 where
  pub order_id : String
  pub action : String
  pub expected_version : Option ℤ
  pub reason : Option String

abbrev pub when_so : {A : Type 0} → Bool → A → Option A
when_so b a = if b then some a else none

-- `z.number().int().positive().max(most)`
abbrev pub quantity_within : ℕ → ℤ → Option ℕ
quantity_within most q = when_so (leb_ℤ (pos 1) q && leb_ℤ q (pos most)) (pos_part q)

-- `z.number().int().positive().optional()`
abbrev pub version_given : Option ℤ → Option (Option ℕ)
version_given none = some none
version_given (some v) = when_so (leb_ℤ (pos 1) v) (some (pos_part v))

-- `z.string().trim().min(least).max(most).optional()`
abbrev pub text_given : Text → ℕ → ℕ → Option String → Option (Option String)
text_given text least most none = some none
text_given text least most (some t) =
    let trimmed = text.trim t in
    when_so (leb least (text.size trimmed) && leb (text.size trimmed) most) (some trimmed)

-- `orderActionSchema`
unfoldable pub parse_action : String → Option OrderAction
parse_action t =
    if str_eq t "confirm"
    then some confirm
    else if str_eq t "pack"
    then some pack
    else if str_eq t "ship"
    then some ship
    else if str_eq t "deliver"
    then some deliver
    else if str_eq t "cancel"
    then some cancel
    else if str_eq t "return"
    then some return
    else none

unfoldable pub parse_line : Text → LineBody → Option Line
unfolding bind
parse_line text l = bind (text.uuid l.product_id) λ product.
    bind (quantity_within 1000 l.quantity)
      λ quantity. some (record { product_id = product; quantity = quantity })

unfoldable pub parse_lines : Text → List LineBody → Option (List Line)
unfolding bind
parse_lines text [] = some []
parse_lines text (l ∷ ls) =
    bind (parse_line text l) λ line. bind (parse_lines text ls) λ lines. some (line ∷ lines)

-- `placeOrderSchema`
unfoldable pub parse_place_order : Text → PlaceOrderBody → Option PlaceOrderInput
unfolding bind
parse_place_order text body =
    bind (when_so (ltb 0 (length body.items) && leb (length body.items) 100) tt) λ sized.
      bind (parse_lines text body.items) λ items.
        bind (text_given text 8 200 body.idempotency_key)
          λ key. some (record { items = items; idempotency_key = key })

-- `transitionOrderSchema`
unfoldable pub parse_transition_order : Text → TransitionOrderBody → Option TransitionOrderInput
unfolding bind parse_action
parse_transition_order text body = bind (text.uuid body.order_id) λ order.
    bind (parse_action body.action) λ action. bind (version_given body.expected_version) λ version.
      bind (text_given text 1 500 body.reason) λ reason.
        some (record {
          order_id = order;
          action = action;
          expected_version = version;
          reason = reason;
        })

-- ===== src/Inventory/Api.antt =====
-- The routes of apps/inventory-service/src/inventory/inventory.controller.ts and the schemas of dto.ts.
-- A body that is no JSON of the schema's shape never becomes an input here; the bounds are checked.
use ecommerce_orderflow.Prelude.{
  ℕ, List, [], ◌∷◌, Bool, true, false, ◌&&◌, Option, none, some, ltb, leb, length,
}
use ecommerce_orderflow.Runtime.{Result, ok, err, throw}
use ecommerce_orderflow.Inventory.Errors.{Thrown, zod_error, other_error}
use ecommerce_orderflow.Inventory.Tables.{Inventory}
use ecommerce_orderflow.Inventory.Repository.{Tx, transaction}
use ecommerce_orderflow.Inventory.Service.Record.{Line, ReserveInput, ReceiveInput}
use ecommerce_orderflow.Inventory.Service.Reserve.{reserve, confirm}
use ecommerce_orderflow.Inventory.Service.Settle.{release, receive}
use ecommerce_orderflow.Inventory.Http.{Extensions, HttpException, to_http_exception}

-- `z.number().int().positive().max(1000)` on each line of a nonempty array of at most 100.
abbrev pub valid_lines : List Line → Bool
valid_lines [] = true
valid_lines (l ∷ ls) = ltb 0 l.quantity && (leb l.quantity 1000 && valid_lines ls)

unfoldable pub valid_items : List Line → Bool
valid_items items = ltb 0 (length items) && (leb (length items) 100 && valid_lines items)

-- A response, with the extensions of a refusal.
pub record Reply : Type 0 where
  pub status : ℕ
  pub extensions : Option Extensions

abbrev pub refusal : HttpException → Reply
refusal e = record { status = e.status; extensions = some e.extensions }

abbrev pub reply_to : {A : Type 0} → Result Thrown A → Reply
reply_to (ok a) = record { status = 201; extensions = none }
reply_to (err e) = refusal (to_http_exception e)

-- A handler: its call in a `try`, its error mapped.
unfoldable pub answer : {A : Type 0} → Tx A → Inventory → Reply × Inventory
unfolding to_http_exception
answer call w = let (r, w') = call w in (reply_to r, w')

abbrev pub when_valid : {A : Type 0} → Bool → Tx A → Tx A
when_valid true call w = call w
when_valid false call w = (err zod_error, w)

unfoldable pub post_reservation : ℕ → ℕ → ReserveInput → Inventory → Reply × Inventory
unfolding valid_items
post_reservation ttl now input =
    answer (when_valid (valid_items input.items) (reserve ttl now input))

-- A call for the path parameter `orderId`, which no schema checks: PostgreSQL's reading of it, or none for a
-- text that is no UUID, which makes the first query of the transaction throw.
abbrev pub for_order : {A : Type 0} → (ℕ → Tx A) → Option ℕ → Tx A
for_order call none = transaction (throw other_error)
for_order call (some order) = call order

unfoldable pub post_confirm : Option ℕ → Inventory → Reply × Inventory
post_confirm order = answer (for_order confirm order)

unfoldable pub post_release : Option ℕ → Inventory → Reply × Inventory
post_release order = answer (for_order (λ o. release o "released by order service") order)

unfoldable pub post_receive : ReceiveInput → Inventory → Reply × Inventory
post_receive input =
    answer (when_valid (ltb 0 input.quantity && leb input.quantity 100000) (receive input))

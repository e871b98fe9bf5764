-- ===== src/Orders/Fingerprint/Payload.antt =====
-- The payload whose fingerprint `placeOrder` of apps/workflow-service/src/orders/orders.service.ts takes:
-- `{ items: input.items }`.
pub mod Units
pub mod Distinct
use ecommerce_orderflow.Prelude.{ℕ, String, List, [], ◌∷◌}
use ecommerce_orderflow.Inventory.Service.Record.{Line}
use ecommerce_orderflow.Orders.Fingerprint.{
  Text, text, Json, primitive, array, object, Items, done, item, end, field, fingerprint,
}

-- How JavaScript and the request write strings, product ids and numbers.
pub record Writing : Type 0 where
  pub stringify : Text → Text
  pub uuid : ℕ → Text
  pub number : ℕ → Text

-- A line of the request.
abbrev pub line_json : Writing → Line → Json
line_json w l = object (
    field (text "productId") (primitive (w.stringify (w.uuid l.product_id)))
      (field (text "quantity") (primitive (w.number l.quantity)) end))

abbrev pub items_json : Writing → List Line → Items
items_json w [] = done
items_json w (l ∷ ls) = item (line_json w l) (items_json w ls)

abbrev pub payload : Writing → List Line → Json
payload w items = object (field (text "items") (array (items_json w items)) end)

-- `fingerprint({ items: input.items })`
unfoldable pub request_print : Writing → (Text → String) → List Line → String
unfolding fingerprint
request_print w sha256 items = fingerprint w.stringify sha256 (payload w items)

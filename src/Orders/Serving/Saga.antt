-- ===== src/Orders/Serving/Saga.antt =====
-- `placeOrder` of apps/workflow-service/src/orders/orders.service.ts keeps the audit trail.
use ecommerce_orderflow.Prelude.{ℕ, List, [], ◌∷◌, Option, none, some, find, ◌==◌}
use ecommerce_orderflow.Runtime.{pure, ◌>>=◌}
use ecommerce_orderflow.Runtime.Laws.{Ensures-map, Ensures, bind-Ensures}
use ecommerce_orderflow.Domain.Transitions.{Role}
use ecommerce_orderflow.Inventory.Service.Record.{Line}
use ecommerce_orderflow.Orders.Tables.{ProductRow, Orders}
use ecommerce_orderflow.Orders.Repository.{find_products}
use ecommerce_orderflow.Orders.Client.{on_orders}
use ecommerce_orderflow.Orders.Placement.{
  price_lines, price_in, price_order, write_order, operation, PricedLine, price_found,
}
use ecommerce_orderflow.Orders.Serving.{IsKept}
use ecommerce_orderflow.Orders.Tables.{OrderDb}
use ecommerce_orderflow.Orders.Audit.Places.{Wrote, write_order-Wrote}
use ecommerce_orderflow.Orders.Serving.Calls.{StepsKeep}
use ecommerce_orderflow.Orders.Serving.Steps.{
  Keeps, transaction-Keeps, reserve_stock-Keeps, confirm_stock-Keeps, release_quietly-Keeps,
  claim-Keeps, complete-Keeps, fail-Keeps,
}

module _ (P : OrderDb → Type 0) (kept : IsKept P) where
  price_found-Keeps :
      (l : Line) (x : Option ProductRow) (w : Orders)
      → P w.db
      → Ensures (λ _ w'. P w'.db) (price_found l x w)
  price_found-Keeps l none w a = tt
  price_found-Keeps l (some p) w a = a

  price_lines-Keeps :
      (ps : List ProductRow) (ls : List Line) (w : Orders)
      → P w.db
      → Ensures (λ _ w'. P w'.db) (price_lines ps ls w)
  price_lines-Keeps ps [] w a = a
  price_lines-Keeps ps (l ∷ ls) w a =
      bind-Ensures (λ _ w'. P w'.db) (λ _ w'. P w'.db)
        (price_found l (find (λ p. p.id == l.product_id) ps))
        (λ x. price_lines ps ls >>= λ xs. pure (x ∷ xs)) w
        (price_found-Keeps l (find (λ p. p.id == l.product_id) ps) w a)
        λ x w₁ h.
          bind-Ensures (λ _ w'. P w'.db) (λ _ w'. P w'.db) (price_lines ps ls) (λ xs. pure (x ∷ xs))
            w₁ (price_lines-Keeps ps ls w₁ h) (λ _ w₂ k. k)

  price_order-Keeps : (ls : List Line) → Keeps P (on_orders (price_order ls))
  unfolding price_order price_in find_products
  price_order-Keeps ls = transaction-Keeps P (price_in ls) (λ w a. price_lines-Keeps _ ls w a)

  write_order-Keeps :
      (o user : ℕ) (role : Role) (ls : List PricedLine) (w : Orders)
      → P w.db
      → Ensures (λ _ w'. P w'.db) (write_order o user role ls w)
  write_order-Keeps o user role ls w a =
      Ensures-map (λ _ w'. Wrote o user role ls w.db w'.db) (λ _ w'. P w'.db)
        (write_order o user role ls w) (λ _ w' h. kept.write_kept o user role ls w.db w'.db h a)
        (write_order-Wrote o user role ls w)

  pub orders_keep : StepsKeep (λ s. P s.orders.db)
  orders_keep = record {
    price_keeps = price_order-Keeps;
    reserve_keeps = reserve_stock-Keeps P;
    write_keeps = λ o user role ls.
        transaction-Keeps P (write_order o user role ls) (write_order-Keeps o user role ls);
    release_keeps = release_quietly-Keeps P;
    confirm_keeps = confirm_stock-Keeps P;
    count_keeps = λ role s h. h;
    claim_keeps = claim-Keeps P kept operation;
    complete_keeps = complete-Keeps P kept operation;
    fail_keeps = fail-Keeps P kept operation;
  }

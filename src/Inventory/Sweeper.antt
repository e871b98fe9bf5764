-- ===== src/Inventory/Sweeper.antt =====
-- apps/inventory-service/src/inventory/sweeper.service.ts. `now` is the database's clock; each
-- transaction of a sweep is a step of its own, so that other calls can come between them.
use ecommerce_orderflow.Prelude.{ℕ, List, [], ◌∷◌, Bool, true, false}
use ecommerce_orderflow.Runtime.{pure, ◌>>=◌}
use ecommerce_orderflow.Inventory.Repository.{
  Tx, transaction, is_still_expired, find_expired_order_ids,
}
use ecommerce_orderflow.Inventory.Service.Settle.{release_in}

abbrev pub sweep_limit : ℕ
sweep_limit = 100

unfoldable pub candidates : ℕ → Tx (List ℕ)
candidates now = transaction (find_expired_order_ids now sweep_limit)

abbrev pub release_expired : ℕ → Bool → Tx Bool
release_expired order false = pure false
release_expired order true =
    release_in order "reservation expired before the order was confirmed" >>= λ n. pure true

unfoldable pub sweep_in : ℕ → ℕ → Tx Bool
sweep_in now order = is_still_expired now order >>= release_expired order

unfoldable pub sweep_order : ℕ → ℕ → Tx Bool
sweep_order now order = transaction (sweep_in now order)

unfoldable pub sweep_orders : ℕ → List ℕ → Tx (Unit {0})
sweep_orders now [] = pure tt
sweep_orders now (order ∷ orders) = sweep_order now order >>= λ swept. sweep_orders now orders

unfoldable pub sweep : ℕ → Tx (Unit {0})
sweep now = candidates now >>= sweep_orders now

-- ===== src/Inventory/Errors.antt =====
-- apps/inventory-service/src/common/errors.ts, with the other values that a call can throw.
use ecommerce_orderflow.Prelude.{ℕ, ℤ}

-- `BusinessError` and its subclasses.
pub data BusinessError : Type 0 where
  insufficient_stock : ℕ → ℕ → ℤ → BusinessError
  unknown_stock_item : ℕ → BusinessError
  reservation_not_found : ℕ → BusinessError
  reservation_conflict : ℕ → ℕ → ℕ → ℕ → BusinessError

-- `InfrastructureError` and its subclass.
pub data InfrastructureError : Type 0 where
  storage_error : InfrastructureError

-- What `err: unknown` can be: the two hierarchies, a `ZodError`, and any other error, such as the
-- driver's for a violated constraint or a lost connection.
pub data Thrown : Type 0 where
  business : BusinessError → Thrown
  infrastructure : InfrastructureError → Thrown
  zod_error : Thrown
  other_error : Thrown

-- ===== src/Inventory/Http.antt =====
-- apps/inventory-service/src/common/action-error.ts: the reply to a caller that made a call throw.
use ecommerce_orderflow.Prelude.{ℕ, ℤ}
use ecommerce_orderflow.Inventory.Errors.{
  BusinessError, Thrown, business, infrastructure, zod_error, other_error,
}

-- `extensions` of the response, by its `code`. `rejected` is the code of any further subclass of
-- `BusinessError`, of which there is none.
pub data Extensions : Type 0 where
  insufficient_stock : ℕ → ℕ → ℤ → Extensions
  reservation_conflict : ℕ → ℕ → ℕ → ℕ → Extensions
  unknown_product not_found bad_input rejected storage_unavailable internal : Extensions

-- `HttpException`: its status and its extensions. The message is left out.
pub record HttpException : Type 0 where
  pub status : ℕ
  pub extensions : Extensions

unfoldable pub to_http_exception : Thrown → HttpException
to_http_exception (business (BusinessError.insufficient_stock p requested available)) = record {
  status = 409;
  extensions = Extensions.insufficient_stock p requested available;
}
to_http_exception (business (BusinessError.reservation_conflict o p existing requested)) = record {
  status = 409;
  extensions = Extensions.reservation_conflict o p existing requested;
}
to_http_exception (business (BusinessError.unknown_stock_item p)) = record {
  status = 404;
  extensions = unknown_product;
}
to_http_exception (business (BusinessError.reservation_not_found o)) = record {
  status = 404;
  extensions = not_found;
}
to_http_exception zod_error = record { status = 400; extensions = bad_input }
to_http_exception (infrastructure e) = record { status = 500; extensions = storage_unavailable }
to_http_exception other_error = record { status = 500; extensions = internal }

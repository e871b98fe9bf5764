-- ===== src/Inventory/Books/Runs.antt =====
-- The ledger and the alerts across every call of the inventory service.
use ecommerce_orderflow.Prelude.{List}
use ecommerce_orderflow.Inventory.Tables.{Inventory}
use ecommerce_orderflow.Inventory.Serving.{Request, run, IsKept, run-Kept}
use ecommerce_orderflow.Inventory.Books.{Books}
use ecommerce_orderflow.Inventory.Books.Reserving.{reserve_in-Booked}
use ecommerce_orderflow.Inventory.Books.Settling.{
  confirm_in-Booked, release_in-Booked, commit_in-Booked, receive_in-Booked,
  mark_event_processed-Booked,
}

Books-IsKept : IsKept Books
Books-IsKept = record {
  reserve_kept = reserve_in-Booked;
  confirm_kept = confirm_in-Booked;
  release_kept = release_in-Booked;
  commit_kept = commit_in-Booked;
  receive_kept = receive_in-Booked;
  receipt_kept = mark_event_processed-Booked;
}

-- In a database whose `product_id`s name one row each, suppose that of each product with a movement the
-- latest movement shows the counts and an alert is open exactly when the counts call for one. The same
-- holds after any sequence of reservations, confirmations, releases, commits, receipts, event deliveries
-- and sweeps, answered or refused, and under any faults of the driver.
pub run-Books : (rs : List Request) (w : Inventory) → Books w.db → Books (run rs w).db
run-Books = run-Kept Books Books-IsKept

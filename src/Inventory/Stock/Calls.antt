-- ===== src/Inventory/Stock/Calls.antt =====
-- Every call of the inventory service keeps the stock consistent, whatever the driver does.
use ecommerce_orderflow.Prelude.{
  ℕ, refl, ◌++◌, String, str_eq, List, [], ◌∷◌, true, false, any, if◌then◌else◌,
}
use ecommerce_orderflow.Runtime.{ok}
use ecommerce_orderflow.Runtime.Laws.{Ensures}
use ecommerce_orderflow.Inventory.Errors.{Thrown}
use ecommerce_orderflow.Inventory.Tables.{Inventory}
use ecommerce_orderflow.Inventory.Repository.{mark_event_processed}
use ecommerce_orderflow.Inventory.Service.Settle.{release_in, commit_in}
use ecommerce_orderflow.Inventory.Serving.{Request, run, IsKept, run-Kept}
use ecommerce_orderflow.Inventory.Stock.Consistency.{IsConsistent}
use ecommerce_orderflow.Inventory.Stock.Holding.{same-IsConsistent}
use ecommerce_orderflow.Inventory.Stock.Reserve.{Consistent}
use ecommerce_orderflow.Inventory.Stock.Release.{release_in-Settles, commit_in-Settles}
use ecommerce_orderflow.Inventory.Stock.ReserveCall.{reserve_in-keeps}
use ecommerce_orderflow.Inventory.Stock.Restock.{confirm_in-keeps, receive_in-keeps}

pub release_in-keeps :
    (o : ℕ) (reason : String) (w : Inventory)
    → IsConsistent w.db
    → Ensures Consistent (release_in o reason w)
release_in-keeps o reason w c =
    let (w', e, s) = release_in-Settles o reason w c in rw e s.consistent

pub commit_in-keeps :
    (o : ℕ) (w : Inventory) → IsConsistent w.db → Ensures Consistent (commit_in o w)
commit_in-keeps o w c = let (w', e, s) = commit_in-Settles o w c in rw e s.consistent

abbrev pub received : String → Inventory → Inventory
received id w = record w {
  db = record w.db { processed_events = w.db.processed_events ++ id ∷ [] };
}

mark_event_processed-keeps :
    (id : String) (w : Inventory)
    → IsConsistent w.db
    → Ensures Consistent (mark_event_processed id w)
unfolding mark_event_processed
mark_event_processed-keeps id w c =
    elim (any (λ e. str_eq e id) w.db.processed_events)
      as (λ b.
        Ensures {E = Thrown} Consistent (if b then (ok false, w) else (ok true, received id w))) [
          | true ↦ c
          | false ↦ same-IsConsistent w.db (received id w).db refl refl c
        ]

IsConsistent-IsKept : IsKept IsConsistent
IsConsistent-IsKept = record {
  reserve_kept = reserve_in-keeps;
  confirm_kept = confirm_in-keeps;
  release_kept = release_in-keeps;
  commit_kept = commit_in-keeps;
  receive_kept = receive_in-keeps;
  receipt_kept = mark_event_processed-keeps;
}

-- After any sequence of reservations, confirmations, releases, commits, receipts, event deliveries and
-- sweeps, answered or refused, and under any faults of the driver, a database that was consistent is
-- consistent: each product's reserved is the sum of its HELD quantities and at most on_hand, and every
-- reservation has a positive quantity and a known product. In a consistent database, moreover, each
-- product's on_hand, twice its reorder level and its reorder quantity fit an integer column, as does the
-- quantity of a reservation.
pub run-IsConsistent :
    (rs : List Request) (w : Inventory) → IsConsistent w.db → IsConsistent (run rs w).db
run-IsConsistent = run-Kept IsConsistent IsConsistent-IsKept

-- ===== src/Inventory/Stock/Rows/Settling.antt =====
-- What stays true of every reservation of apps/inventory-service/src: `confirm`, `release`, `commit` and `receive`.
use ecommerce_orderflow.Prelude.{none, ℕ, sym, subst, String, List, [], ◌∷◌, pos, All, ◌==◌, find}
use ecommerce_orderflow.Runtime.{Result, ok, err}
use ecommerce_orderflow.Runtime.Laws.{Ensures, Ensures-map}
use ecommerce_orderflow.Inventory.Errors.{Thrown}
use ecommerce_orderflow.Inventory.Tables.{
  ReservationRow, StockItemRow, released, committed, StockItemRow, released, committed, Inventory,
}
use ecommerce_orderflow.Inventory.Repository.{lock_items, get_item, adjust_on_hand}
use ecommerce_orderflow.Inventory.Service.Record.{ReceiveInput, record_and_evaluate}
use ecommerce_orderflow.Inventory.Service.Reserve.{confirm_in}
use ecommerce_orderflow.Inventory.Service.Settle.{
  release_in, commit_in, first_or_unknown, or_else, receipt, audit_receipt, restock, receive_in,
}
use ecommerce_orderflow.Inventory.Stock.Frame.{Untouched, record_and_evaluate-Untouched}
use ecommerce_orderflow.Inventory.Stock.Consistency.{IsConsistent}
use ecommerce_orderflow.Inventory.Stock.Release.{release_in-Settles, commit_in-Settles}
use ecommerce_orderflow.Inventory.Stock.Once.{confirmed_rows}
use ecommerce_orderflow.Inventory.Stock.Rows.{
  IsRowKept, Throughout, SameRows, All-update_holds, same-Throughout, then-Throughout,
  adjust_on_hand-SameRows,
}

module _ (P : ReservationRow → Type 0) (may_hold may_commit : ℕ → Type 0)
    (kept : IsRowKept P may_hold may_commit) where
  pub confirm_in-Throughout :
      (o : ℕ) (w : Inventory) → Throughout P tt w → Ensures (Throughout P) (confirm_in o w)
  confirm_in-Throughout o w h = of_result (confirm_in o w) (
      subst (All P) (sym (confirmed_rows o w)) (
        All-update_holds P o (λ v. record v { expires_at = none }) w.db.reservations
          (λ v _. kept.unexpired_kept v) h))
    where
      of_result :
          (x : Result Thrown ℕ × Inventory) → All P x.1.db.reservations → Ensures (Throughout P) x
      of_result (ok n, v) k = k
      of_result (err e, v) k = tt

  pub release_in-Throughout :
      (o : ℕ) (reason : String) (w : Inventory)
      → IsConsistent w.db
      → Throughout P tt w
      → Ensures (Throughout P) (release_in o reason w)
  release_in-Throughout o reason w c h =
      let (w', e, s) = release_in-Settles o reason w c in
      rw e (
        subst (All P) (sym s.holds_marked) (
          All-update_holds P o (λ v. record v { status = released }) w.db.reservations
            (λ v _. kept.released_kept v) h))

  pub commit_in-Throughout :
      (o : ℕ) (w : Inventory)
      → IsConsistent w.db
      → may_commit o
      → Throughout P tt w
      → Ensures (Throughout P) (commit_in o w)
  commit_in-Throughout o w c q h =
      let (w', e, s) = commit_in-Settles o w c in
      rw e (
        subst (All P) (sym s.holds_marked) (
          All-update_holds P o (λ v. record v { status = committed }) w.db.reservations
            (λ v e. kept.committed_kept v (subst may_commit (sym e) q)) h))

  audit_receipt-Throughout :
      (i : ReceiveInput) (row : StockItemRow) (w : Inventory)
      → Throughout P tt w
      → Ensures (Throughout P) (audit_receipt i row w)
  unfolding get_item
  audit_receipt-Throughout i row w h =
      let now = or_else (find (λ r. r.product_id == i.product_id) w.db.stock_items) row in
      then-Throughout P may_hold may_commit kept (record_and_evaluate now (receipt i)) _ w
        (same-Throughout P may_hold may_commit kept (record_and_evaluate now (receipt i)) w
          (Ensures-map (λ _ w'. Untouched w w') (SameRows w) (record_and_evaluate now (receipt i) w)
            (λ a w' u. u.same_reservations) (record_and_evaluate-Untouched now (receipt i) w))
          h)
        (λ _ w' h'. h')

  first_or_unknown-Throughout :
      (p : ℕ) (rows : List StockItemRow) (w : Inventory)
      → Throughout P tt w
      → Ensures (Throughout P) (first_or_unknown p rows w)
  first_or_unknown-Throughout p [] w h = tt
  first_or_unknown-Throughout p (row ∷ rows) w h = h

  pub receive_in-Throughout :
      (i : ReceiveInput) (w : Inventory)
      → Throughout P tt w
      → Ensures (Throughout P) (receive_in i w)
  unfolding receive_in lock_items
  receive_in-Throughout i w h =
      then-Throughout P may_hold may_commit kept (first_or_unknown i.product_id _) (restock i) w
        (first_or_unknown-Throughout i.product_id _ w h)
        λ row w₁ h₁.
          then-Throughout P may_hold may_commit kept (adjust_on_hand i.product_id (pos i.quantity))
            (λ _. audit_receipt i row) w₁
            (same-Throughout P may_hold may_commit kept
              (adjust_on_hand i.product_id (pos i.quantity)) w₁
              (adjust_on_hand-SameRows P may_hold may_commit kept i.product_id (pos i.quantity) w₁)
              h₁)
            (λ _ w₂ h₂. audit_receipt-Throughout i row w₂ h₂)

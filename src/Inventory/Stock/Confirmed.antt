-- ===== src/Inventory/Stock/Confirmed.antt =====
-- The sweeper, apps/inventory-service/src/inventory/sweeper.service.ts, on an order whose hold was confirmed.
use ecommerce_orderflow.Prelude.{
  ℕ, ◌≡◌, refl, sym, subst, List, [], ◌∷◌, filter, ◌&&◌, ◌==◌, true, false, Bool-cases, inl, inr,
  none, All, arith,
}
use ecommerce_orderflow.Runtime.{ok, err, Result, with_transaction}
use ecommerce_orderflow.Runtime.Laws.{
  Ensures, Ensures-ok, begun, with_transaction-Ensures, with_transaction-keeps,
}
use ecommerce_orderflow.Inventory.Errors.{Thrown, other_error}
use ecommerce_orderflow.Inventory.Tables.{ReservationRow, Inventory}
use ecommerce_orderflow.Inventory.Repository.{transaction, holds, is_still_expired}
use ecommerce_orderflow.Inventory.Repository.Rows.{is_expired}
use ecommerce_orderflow.Inventory.Service.Reserve.{confirm_in, confirm}
use ecommerce_orderflow.Inventory.Sweeper.{sweep_in, sweep_order}
use ecommerce_orderflow.Inventory.Serving.{Request, run}
use ecommerce_orderflow.Inventory.Stock.Consistency.{IsConsistent}
use ecommerce_orderflow.Inventory.Stock.Reserve.{Consistent}
use ecommerce_orderflow.Inventory.Stock.Restock.{confirm_in-keeps}
use ecommerce_orderflow.Inventory.Stock.Once.{unexpiring, confirmed_rows}
use ecommerce_orderflow.Inventory.Stock.Rows.{IsRowKept}
use ecommerce_orderflow.Inventory.Stock.Rows.Requests.{IsSound, IsAllowed, run-Sound}

-- A hold of the order is confirmed.
abbrev pub IsConfirmed : ℕ → ReservationRow → Type 0
IsConfirmed o v = holds o v ≡ true → v.expires_at ≡ none

-- No further reservation of the order is made.
abbrev pub IsOther : ℕ → ℕ → Type 0
IsOther o k = (k == o) ≡ false

IsConfirmed-IsRowKept : (o : ℕ) → IsRowKept (IsConfirmed o) (IsOther o) (λ _. Unit {0})
IsConfirmed-IsRowKept o = record {
  new_kept = λ k p q x n h. absurd (ground (arith, n, h));
  released_kept = λ v k h. absurd (ground (arith, h));
  committed_kept = λ v _ k h. absurd (ground (arith, h));
  unexpired_kept = λ v k h. refl;
}

unexpiring-IsConfirmed : (o : ℕ) (vs : List ReservationRow) → All (IsConfirmed o) (unexpiring o vs)
unexpiring-IsConfirmed o [] = tt
unexpiring-IsConfirmed o (v ∷ vs) = elim (Bool-cases (holds o v)) [
  | inl e ↦ rw e ((λ h. refl), unexpiring-IsConfirmed o vs)
  | inr e ↦ rw e ((λ h. absurd (ground (arith, e, h))), unexpiring-IsConfirmed o vs)
]

none_expired :
    (now o : ℕ) (vs : List ReservationRow)
    → All (IsConfirmed o) vs
    → filter (λ v. holds o v && is_expired now v.expires_at) vs ≡ []
unfolding is_expired
none_expired now o [] h = refl
none_expired now o (v ∷ vs) h = elim (Bool-cases (holds o v)) [
  | inl e ↦ rw (e, h.0 e) (none_expired now o vs h.1)
  | inr e ↦ rw e (none_expired now o vs h.1)
]

-- The confirmation has committed: the stock is consistent, and the order's holds have no expiry.
confirm-IsSound :
    (o : ℕ) (w : Inventory) (n : ℕ)
    → IsConsistent w.db
    → (confirm o w).0 ≡ ok n
    → IsSound (IsConfirmed o) (confirm o w).1.db
unfolding confirm transaction
confirm-IsSound o w n c e =
    Ensures-ok (λ _ v. IsSound (IsConfirmed o) v.db) (confirm o w) n e
      (with_transaction-Ensures (λ _ v. IsSound (IsConfirmed o) v.db) other_error (confirm_in o) w
        (returned (confirm_in o (begun w)) (confirm_in-keeps o (begun w) c) (
          subst (All (IsConfirmed o)) (sym (confirmed_rows o (begun w)))
            (unexpiring-IsConfirmed o w.db.reservations))))
  where
    returned :
        (x : Result Thrown ℕ × Inventory)
        → Ensures Consistent x
        → All (IsConfirmed o) x.1.db.reservations
        → Ensures (λ _ v. IsSound (IsConfirmed o) v.db) x
    returned (ok m, v) h k = (h, k)
    returned (err x, v) h k = tt

unswept_lem :
    (now o : ℕ) (w : Inventory)
    → All (IsConfirmed o) w.db.reservations
    → sweep_in now o w ≡ (ok false, w)
unfolding sweep_in is_still_expired
unswept_lem now o w h = rw (none_expired now o w.db.reservations h) refl

-- A sweep of the order, whatever the driver does.
sweep_order-idle :
    (now o : ℕ) (w : Inventory)
    → All (IsConfirmed o) w.db.reservations
    → (sweep_order now o w).1.db ≡ w.db
unfolding sweep_order transaction with_transaction
sweep_order-idle now o w h =
    with_transaction-keeps (λ d. d ≡ w.db) other_error (sweep_in now o) w refl
      (subst (Ensures (λ _ v. v.db ≡ w.db)) (sym (unswept_lem now o (begun w) h)) refl)

-- Once `confirm` of an order has answered, on a consistent database, no sweep of the order that starts after it
-- gives its hold back, however late: whatever requests, deliveries and sweeps ran in between, answered or
-- refused and under any faults of the driver, the sweep's transaction finds nothing to release and the database
-- stays as it is. The condition is that no request in between reserves for that order again.
pub confirmed_not_swept :
    (o now n : ℕ) (rs : List Request) (w : Inventory)
    → IsConsistent w.db
    → (confirm o w).0 ≡ ok n
    → All (IsAllowed (IsOther o) (λ _. Unit {0})) rs
    → (sweep_in now o (run rs (confirm o w).1) ≡ (ok false, run rs (confirm o w).1))
      × ((sweep_order now o (run rs (confirm o w).1)).1.db ≡ (run rs (confirm o w).1).db)
confirmed_not_swept o now n rs w c e a =
    let h =
      run-Sound (IsConfirmed o) (IsOther o) (λ _. Unit {0}) (IsConfirmed-IsRowKept o) rs
        (confirm o w).1 a (confirm-IsSound o w n c e) in
    (unswept_lem now o _ h.1, sweep_order-idle now o _ h.1)

-- ===== src/Inventory/Stock/Rows/Requests.antt =====
-- What stays true of every reservation of apps/inventory-service/src, under its transactions in any order.
use ecommerce_orderflow.Prelude.{
  List, [], ◌∷◌, ℕ, ltb, ◌≡◌, refl, String, str_eq, Bool, true, false, Option, none, some, All, any,
  inl, inr, Bool-cases, if◌then◌else◌,
}
use ecommerce_orderflow.Runtime.{Result, ok, err, pure}
use ecommerce_orderflow.Runtime.Laws.{Ensures, bind-Ensures, with_transaction-keeps, begun}
use ecommerce_orderflow.Inventory.Errors.{Thrown, other_error}
use ecommerce_orderflow.Inventory.Tables.{ReservationRow, Db, Inventory}
use ecommerce_orderflow.Inventory.Repository.{
  Tx, transaction, mark_event_processed, is_still_expired,
}
use ecommerce_orderflow.Inventory.Service.Record.{ReserveInput, ReceiveInput}
use ecommerce_orderflow.Inventory.Service.Reserve.{reserve_in, reserve, confirm_in, confirm}
use ecommerce_orderflow.Inventory.Service.Settle.{
  release_in, release, commit, commit_in, receive_in, receive,
}
use ecommerce_orderflow.Inventory.Events.{
  OrderEventPayload, Status, release_for, commit_for, apply_event, when_fresh, handle_in,
  handle_order_event,
}
use ecommerce_orderflow.Inventory.Sweeper.{release_expired, sweep_in, sweep_order}
use ecommerce_orderflow.Inventory.Serving.{
  Request, serve, run, reserves, confirms, commits, releases, receives, delivers, sweeps,
}
use ecommerce_orderflow.Inventory.Stock.Consistency.{IsConsistent}
use ecommerce_orderflow.Inventory.Stock.Holding.{same-IsConsistent}
use ecommerce_orderflow.Inventory.Stock.Reserve.{Consistent}
use ecommerce_orderflow.Inventory.Stock.ReserveCall.{reserve_in-keeps}
use ecommerce_orderflow.Inventory.Stock.Restock.{confirm_in-keeps, receive_in-keeps}
use ecommerce_orderflow.Inventory.Stock.Calls.{release_in-keeps, commit_in-keeps, received}
use ecommerce_orderflow.Inventory.Stock.Rows.{IsRowKept, Throughout, reserve_in-Throughout}
use ecommerce_orderflow.Inventory.Stock.Rows.Settling.{
  confirm_in-Throughout, release_in-Throughout, commit_in-Throughout, receive_in-Throughout,
}

-- The stock is consistent, and `P` holds of every reservation.
abbrev pub IsSound : (ReservationRow → Type 0) → Db → Type 0
IsSound P d = IsConsistent d × All P d.reservations

abbrev Sound : (ReservationRow → Type 0) → {A : Type 0} → A → Inventory → Type 0
Sound P a w = IsSound P w.db

-- A request that makes and commits no other reservations than it may. A delivery commits the order that it
-- names, when it says SHIPPED.
abbrev pub IsAllowed : (ℕ → Type 0) → (ℕ → Type 0) → Request → Type 0
IsAllowed may_hold may_commit (reserves ttl now i) = may_hold i.order_id
IsAllowed may_hold may_commit (commits o) = may_commit o
IsAllowed may_hold may_commit (delivers id p) =
    str_eq p.to_status "SHIPPED" ≡ true → (o : ℕ) → p.order_id ≡ some o → may_commit o
IsAllowed may_hold may_commit _ = Unit

module _ (P : ReservationRow → Type 0) (may_hold may_commit : ℕ → Type 0)
    (kept : IsRowKept P may_hold may_commit) where
  pair_Ensured :
      {A : Type 0} (x : Result Thrown A × Inventory)
      → Ensures Consistent x
      → Ensures (Throughout P) x
      → Ensures (Sound P) x
  pair_Ensured (ok a, v) h k = (h, k)
  pair_Ensured (err e, v) h k = tt

  both_Ensured :
      {A : Type 0} (m : Tx A) (w : Inventory)
      → Ensures Consistent (m w)
      → Ensures (Throughout P) (m w)
      → Ensures (Sound P) (m w)
  both_Ensured m w = pair_Ensured (m w)

  reserve_in-Sound :
      (ttl now : ℕ) (i : ReserveInput) (w : Inventory)
      → may_hold i.order_id
      → IsSound P w.db
      → Ensures (Sound P) (reserve_in ttl now i w)
  reserve_in-Sound ttl now i w m h =
      both_Ensured (reserve_in ttl now i) w (reserve_in-keeps ttl now i w h.0)
        (reserve_in-Throughout P may_hold may_commit kept ttl now i w m h.1)

  confirm_in-Sound : (o : ℕ) (w : Inventory) → IsSound P w.db → Ensures (Sound P) (confirm_in o w)
  confirm_in-Sound o w h =
      both_Ensured (confirm_in o) w (confirm_in-keeps o w h.0)
        (confirm_in-Throughout P may_hold may_commit kept o w h.1)

  release_in-Sound :
      (o : ℕ) (reason : String) (w : Inventory)
      → IsSound P w.db
      → Ensures (Sound P) (release_in o reason w)
  release_in-Sound o reason w h =
      both_Ensured (release_in o reason) w (release_in-keeps o reason w h.0)
        (release_in-Throughout P may_hold may_commit kept o reason w h.0 h.1)

  receive_in-Sound :
      (i : ReceiveInput) (w : Inventory) → IsSound P w.db → Ensures (Sound P) (receive_in i w)
  receive_in-Sound i w h =
      both_Ensured (receive_in i) w (receive_in-keeps i w h.0)
        (receive_in-Throughout P may_hold may_commit kept i w h.1)

  commit_in-Sound :
      (o : ℕ) (w : Inventory) → may_commit o → IsSound P w.db → Ensures (Sound P) (commit_in o w)
  commit_in-Sound o w q h =
      both_Ensured (commit_in o) w (commit_in-keeps o w h.0)
        (commit_in-Throughout P may_hold may_commit kept o w h.0 q h.1)

  release_expired-Sound :
      (o : ℕ) (expired : Bool) (w : Inventory)
      → IsSound P w.db
      → Ensures (Sound P) (release_expired o expired w)
  release_expired-Sound o false w h = h
  release_expired-Sound o true w h =
      let reason : String = "reservation expired before the order was confirmed" in
      bind-Ensures (Sound P) (Sound P) (release_in o reason) (λ n. pure true) w
        (release_in-Sound o reason w h) (λ n w' h'. h')

  sweep_in-Sound :
      (now o : ℕ) (w : Inventory) → IsSound P w.db → Ensures (Sound P) (sweep_in now o w)
  unfolding sweep_in is_still_expired
  sweep_in-Sound now o w h = release_expired-Sound o _ w h

  pub transaction-Sound :
      {A : Type 0} (body : Tx A) (w : Inventory)
      → IsSound P w.db
      → ((v : Inventory) → IsSound P v.db → Ensures (Sound P) (body v))
      → IsSound P (transaction body w).1.db
  unfolding transaction
  transaction-Sound body w h k =
      with_transaction-keeps (IsSound P) other_error body w h (k (begun w) h)

  release_for-Sound :
      (o : Option ℕ) (w : Inventory) → IsSound P w.db → Ensures (Sound P) (release_for o w)
  release_for-Sound none w h = tt
  release_for-Sound (some o) w h =
      bind-Ensures (Sound P) (Sound P) (release_in o "order cancelled")
        (λ n. pure (if ltb 0 n then Status.released else Status.noop)) w
        (release_in-Sound o "order cancelled" w h) (λ n w' h'. h')

  commit_for-Sound :
      (o : Option ℕ) (w : Inventory)
      → ((k : ℕ) → o ≡ some k → may_commit k)
      → IsSound P w.db
      → Ensures (Sound P) (commit_for o w)
  commit_for-Sound none w q h = tt
  commit_for-Sound (some o) w q h =
      bind-Ensures (Sound P) (Sound P) (commit_in o)
        (λ n. pure (if ltb 0 n then Status.committed else Status.noop)) w
        (commit_in-Sound o w (q o refl) h) (λ n w' h'. h')

  apply_event-Sound :
      (id : String) (p : OrderEventPayload) (w : Inventory)
      → IsAllowed may_hold may_commit (delivers id p)
      → IsSound P w.db
      → Ensures (Sound P) (apply_event p w)
  unfolding apply_event
  apply_event-Sound id p w q h = elim (Bool-cases (str_eq p.to_status "CANCELLED")) [
    | inl e ↦ rw e (release_for-Sound p.order_id w h)
    | inr e ↦ elim (Bool-cases (str_eq p.to_status "SHIPPED")) [
      | inl f ↦ rw (e, f) (commit_for-Sound p.order_id w (q f) h)
      | inr f ↦ rw (e, f) h
    ]
  ]

  when_fresh-Sound :
      (id : String) (p : OrderEventPayload) (fresh : Bool) (w : Inventory)
      → IsAllowed may_hold may_commit (delivers id p)
      → IsSound P w.db
      → Ensures (Sound P) (when_fresh p fresh w)
  when_fresh-Sound id p false w q h = h
  when_fresh-Sound id p true w q h = apply_event-Sound id p w q h

  receipt-Sound :
      (id : String) (w : Inventory) → IsSound P w.db → Ensures (Sound P) (mark_event_processed id w)
  unfolding mark_event_processed
  receipt-Sound id w h =
      elim (any (λ e. str_eq e id) w.db.processed_events)
        as (λ b.
          Ensures {E = Thrown} (Sound P) (if b then (ok false, w) else (ok true, received id w))) [
            | true ↦ h
            | false ↦ (same-IsConsistent w.db (received id w).db refl refl h.0, h.1)
          ]

  handle_in-Sound :
      (id : String) (p : OrderEventPayload) (w : Inventory)
      → IsAllowed may_hold may_commit (delivers id p)
      → IsSound P w.db
      → Ensures (Sound P) (handle_in id p w)
  unfolding handle_in
  handle_in-Sound id p w q h =
      bind-Ensures (Sound P) (Sound P) (mark_event_processed id) (when_fresh p) w
        (receipt-Sound id w h) (λ fresh w' h'. when_fresh-Sound id p fresh w' q h')

  pub serve-Sound :
      (r : Request) (w : Inventory)
      → IsAllowed may_hold may_commit r
      → IsSound P w.db
      → IsSound P (serve r w).db
  unfolding serve reserve confirm commit release receive handle_order_event sweep_order
  serve-Sound (reserves ttl now i) w m h =
      transaction-Sound (reserve_in ttl now i) w h (λ v. reserve_in-Sound ttl now i v m)
  serve-Sound (confirms o) w m h = transaction-Sound (confirm_in o) w h (confirm_in-Sound o)
  serve-Sound (commits o) w m h = transaction-Sound (commit_in o) w h (λ v. commit_in-Sound o v m)
  serve-Sound (releases o reason) w m h =
      transaction-Sound (release_in o reason) w h (release_in-Sound o reason)
  serve-Sound (receives i) w m h = transaction-Sound (receive_in i) w h (receive_in-Sound i)
  serve-Sound (delivers id p) w m h =
      transaction-Sound (handle_in id p) w h (λ v. handle_in-Sound id p v m)
  serve-Sound (sweeps now o) w m h = transaction-Sound (sweep_in now o) w h (sweep_in-Sound now o)

  -- Requests one after another, answered or refused, and under any faults of the driver.
  pub run-Sound :
      (rs : List Request) (w : Inventory)
      → All (IsAllowed may_hold may_commit) rs
      → IsSound P w.db
      → IsSound P (run rs w).db
  unfolding run
  run-Sound [] w m h = h
  run-Sound (r ∷ rs) w m h = run-Sound rs (serve r w) m.1 (serve-Sound r w m.0 h)

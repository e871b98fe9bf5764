-- ===== src/Inventory/Serving.antt =====
-- The transactions of the inventory service, whichever part starts them: the routes of
-- apps/inventory-service/src/inventory/inventory.controller.ts, the events and the sweeper.
use ecommerce_orderflow.Prelude.{
  ℕ, ltb, String, str_eq, List, [], ◌∷◌, Option, none, some, Bool, true, false, if◌then◌else◌,
  Bool-cases, inl, inr,
}
use ecommerce_orderflow.Runtime.{pure}
use ecommerce_orderflow.Runtime.Laws.{Ensures, bind-Ensures, with_transaction-keeps, begun}
use ecommerce_orderflow.Inventory.Errors.{other_error}
use ecommerce_orderflow.Inventory.Tables.{Db, Inventory}
use ecommerce_orderflow.Inventory.Repository.{
  Tx, transaction, mark_event_processed, is_still_expired,
}
use ecommerce_orderflow.Inventory.Service.Record.{ReserveInput, ReceiveInput}
use ecommerce_orderflow.Inventory.Service.Reserve.{reserve_in, reserve, confirm_in, confirm}
use ecommerce_orderflow.Inventory.Service.Settle.{
  release_in, release, commit_in, commit, receive_in, receive,
}
use ecommerce_orderflow.Inventory.Events.{
  OrderEventPayload, Status, release_for, commit_for, apply_event, when_fresh, handle_in,
  handle_order_event,
}
use ecommerce_orderflow.Inventory.Sweeper.{release_expired, sweep_in, sweep_order}

-- A transaction of the service: a request, a delivery, or one step of a sweep.
pub data Request : Type 0 where
  reserves : ℕ → ℕ → ReserveInput → Request
  confirms commits : ℕ → Request
  releases : ℕ → String → Request
  receives : ReceiveInput → Request
  delivers : String → OrderEventPayload → Request
  sweeps : ℕ → ℕ → Request

-- The state after a request, whether it was answered or refused.
unfoldable pub serve : Request → Inventory → Inventory
serve (reserves ttl now i) w = (reserve ttl now i w).1
serve (confirms o) w = (confirm o w).1
serve (commits o) w = (commit o w).1
serve (releases o reason) w = (release o reason w).1
serve (receives i) w = (receive i w).1
serve (delivers id p) w = (handle_order_event id p w).1
serve (sweeps now o) w = (sweep_order now o w).1

-- Requests, deliveries and sweeps in any order.
unfoldable pub run : List Request → Inventory → Inventory
run [] w = w
run (r ∷ rs) w = run rs (serve r w)

-- What the body of each transaction keeps of the database when it returns.
pub record IsKept (P : Db → Type 0) : Type 0 where
  pub reserve_kept :
      (ttl now : ℕ) (i : ReserveInput) (w : Inventory)
      → P w.db
      → Ensures (λ _ v. P v.db) (reserve_in ttl now i w)
  pub confirm_kept : (o : ℕ) (w : Inventory) → P w.db → Ensures (λ _ v. P v.db) (confirm_in o w)
  pub release_kept :
      (o : ℕ) (reason : String) (w : Inventory)
      → P w.db
      → Ensures (λ _ v. P v.db) (release_in o reason w)
  pub commit_kept : (o : ℕ) (w : Inventory) → P w.db → Ensures (λ _ v. P v.db) (commit_in o w)
  pub receive_kept :
      (i : ReceiveInput) (w : Inventory) → P w.db → Ensures (λ _ v. P v.db) (receive_in i w)
  pub receipt_kept :
      (id : String) (w : Inventory) → P w.db → Ensures (λ _ v. P v.db) (mark_event_processed id w)

module _ (P : Db → Type 0) (kept : IsKept P) where
  abbrev Kept : {A : Type 0} → A → Inventory → Type 0
  Kept a w = P w.db

  release_for-Kept : (o : Option ℕ) (w : Inventory) → P w.db → Ensures Kept (release_for o w)
  release_for-Kept none w c = tt
  release_for-Kept (some o) w c =
      bind-Ensures Kept Kept (release_in o "order cancelled")
        (λ n. pure (if ltb 0 n then Status.released else Status.noop)) w
        (kept.release_kept o "order cancelled" w c) (λ n w' c'. c')

  commit_for-Kept : (o : Option ℕ) (w : Inventory) → P w.db → Ensures Kept (commit_for o w)
  commit_for-Kept none w c = tt
  commit_for-Kept (some o) w c =
      bind-Ensures Kept Kept (commit_in o)
        (λ n. pure (if ltb 0 n then Status.committed else Status.noop)) w (kept.commit_kept o w c)
        (λ n w' c'. c')

  apply_event-Kept :
      (p : OrderEventPayload) (w : Inventory) → P w.db → Ensures Kept (apply_event p w)
  unfolding apply_event
  apply_event-Kept p w c = elim (Bool-cases (str_eq p.to_status "CANCELLED")) [
    | inl e ↦ rw e (release_for-Kept p.order_id w c)
    | inr e ↦ elim (Bool-cases (str_eq p.to_status "SHIPPED")) [
      | inl f ↦ rw (e, f) (commit_for-Kept p.order_id w c)
      | inr f ↦ rw (e, f) c
    ]
  ]

  when_fresh-Kept :
      (p : OrderEventPayload) (fresh : Bool) (w : Inventory)
      → P w.db
      → Ensures Kept (when_fresh p fresh w)
  when_fresh-Kept p false w c = c
  when_fresh-Kept p true w c = apply_event-Kept p w c

  handle_in-Kept :
      (id : String) (p : OrderEventPayload) (w : Inventory)
      → P w.db
      → Ensures Kept (handle_in id p w)
  unfolding handle_in
  handle_in-Kept id p w c =
      bind-Ensures Kept Kept (mark_event_processed id) (when_fresh p) w (kept.receipt_kept id w c)
        (λ fresh w' c'. when_fresh-Kept p fresh w' c')

  release_expired-Kept :
      (o : ℕ) (expired : Bool) (w : Inventory) → P w.db → Ensures Kept (release_expired o expired w)
  release_expired-Kept o false w c = c
  release_expired-Kept o true w c =
      bind-Ensures Kept Kept (release_in o "reservation expired before the order was confirmed")
        (λ n. pure true) w
        (kept.release_kept o "reservation expired before the order was confirmed" w c)
        (λ n w' c'. c')

  sweep_in-Kept : (now o : ℕ) (w : Inventory) → P w.db → Ensures Kept (sweep_in now o w)
  unfolding sweep_in is_still_expired
  sweep_in-Kept now o w c = release_expired-Kept o _ w c

  transaction-Kept :
      {A : Type 0} (body : Tx A) (w : Inventory)
      → P w.db
      → ((v : Inventory) → P v.db → Ensures Kept (body v))
      → P (transaction body w).1.db
  unfolding transaction
  transaction-Kept body w c k = with_transaction-keeps P other_error body w c (k (begun w) c)

  serve-Kept : (r : Request) (w : Inventory) → P w.db → P (serve r w).db
  unfolding serve reserve confirm commit release receive handle_order_event sweep_order
  serve-Kept (reserves ttl now i) w c =
      transaction-Kept (reserve_in ttl now i) w c (kept.reserve_kept ttl now i)
  serve-Kept (confirms o) w c = transaction-Kept (confirm_in o) w c (kept.confirm_kept o)
  serve-Kept (commits o) w c = transaction-Kept (commit_in o) w c (kept.commit_kept o)
  serve-Kept (releases o reason) w c =
      transaction-Kept (release_in o reason) w c (kept.release_kept o reason)
  serve-Kept (receives i) w c = transaction-Kept (receive_in i) w c (kept.receive_kept i)
  serve-Kept (delivers id p) w c = transaction-Kept (handle_in id p) w c (handle_in-Kept id p)
  serve-Kept (sweeps now o) w c = transaction-Kept (sweep_in now o) w c (sweep_in-Kept now o)

  -- So does any sequence of them, answered or refused, and under any faults of the driver.
  pub run-Kept : (rs : List Request) (w : Inventory) → P w.db → P (run rs w).db
  unfolding run
  run-Kept [] w c = c
  run-Kept (r ∷ rs) w c = run-Kept rs (serve r w) (serve-Kept r w c)

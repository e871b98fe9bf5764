-- ===== src/Inventory/Stock/Once.antt =====
-- What happens a second time: apps/inventory-service/src/inventory/inventory.service.ts and
-- sweeper.service.ts, and apps/inventory-service/src/events/events.service.ts.
use ecommerce_orderflow.Prelude.{
  ℕ, ◌≡◌, refl, sym, ap, subst, ◌∙◌, String, str_eq, eq_iff, List, [], ◌∷◌, ◌++◌, map, any, true,
  Option, none, some, arith, inl, inr, Bool-cases, if◌then◌else◌,
}
use ecommerce_orderflow.Runtime.{ok, with_transaction, next_fault, later_faults, healthy}
use ecommerce_orderflow.Runtime.Laws.{Ensures, Ensures-ok, begun, with_transaction-Ensures}
use ecommerce_orderflow.Inventory.Errors.{other_error}
use ecommerce_orderflow.Inventory.Tables.{ReservationRow, released, committed, Inventory}
use ecommerce_orderflow.Inventory.Repository.{
  transaction, find_held_by_order, confirm_reservation, mark_event_processed, holds,
}
use ecommerce_orderflow.Inventory.Service.Reserve.{confirm_in}
use ecommerce_orderflow.Inventory.Service.Settle.{
  release_in, commit_in, release_holds, commit_holds,
}
use ecommerce_orderflow.Inventory.Events.{
  OrderEventPayload, Status, release_for, commit_for, apply_event, handle_in, handle_order_event,
}
use ecommerce_orderflow.Inventory.Stock.Consistency.{IsConsistent}
use ecommerce_orderflow.Inventory.Stock.Holding.{same-IsConsistent}
use ecommerce_orderflow.Inventory.Stock.Calls.{received}
use ecommerce_orderflow.Inventory.Stock.Settled.{found_for, found_for-marked}
use ecommerce_orderflow.Inventory.Stock.Release.{release_in-Settles, commit_in-Settles}

-- The order holds nothing.
abbrev pub IsSettled : ℕ → Inventory → Type 0
IsSettled o w = found_for o w.db.reservations ≡ []

idle_release :
    (o : ℕ) (reason : String) (w : Inventory) → IsSettled o w → release_in o reason w ≡ (ok 0, w)
unfolding release_in release_holds find_held_by_order
idle_release o reason w e = rw e

idle_commit : (o : ℕ) (w : Inventory) → IsSettled o w → commit_in o w ≡ (ok 0, w)
unfolding commit_in commit_holds find_held_by_order
idle_commit o w e = rw e

-- Neither a release nor a commit of the order finds anything to do.
abbrev IsDone : ℕ → Inventory → Type 0
IsDone o w = ((reason : String) → release_in o reason w ≡ (ok 0, w)) × (commit_in o w ≡ (ok 0, w))

done_lem : (o : ℕ) (w : Inventory) → IsSettled o w → IsDone o w
done_lem o w e = (λ reason. idle_release o reason w e, idle_commit o w e)

release_in-IsSettled :
    (o : ℕ) (reason : String) (w : Inventory)
    → IsConsistent w.db
    → IsSettled o (release_in o reason w).1
release_in-IsSettled o reason w c =
    let (w', e, h) = release_in-Settles o reason w c in
    subst (IsSettled o) (sym (ap (λ x. x.1) e))
      (ap (found_for o) h.holds_marked ∙ found_for-marked o released w.db.reservations refl)

commit_in-IsSettled : (o : ℕ) (w : Inventory) → IsConsistent w.db → IsSettled o (commit_in o w).1
commit_in-IsSettled o w c =
    let (w', e, h) = commit_in-Settles o w c in
    subst (IsSettled o) (sym (ap (λ x. x.1) e))
      (ap (found_for o) h.holds_marked ∙ found_for-marked o committed w.db.reservations refl)

-- The stock of an order is given back or shipped at most once: after a release, and after a commit,
-- of an order on a consistent database, both a further release and a further commit of the order
-- return 0 and change nothing.
pub settled_once :
    (o : ℕ) (reason again : String) (w : Inventory)
    → IsConsistent w.db
    → (release_in o again (release_in o reason w).1 ≡ (ok 0, (release_in o reason w).1))
      × (commit_in o (release_in o reason w).1 ≡ (ok 0, (release_in o reason w).1))
      × (release_in o again (commit_in o w).1 ≡ (ok 0, (commit_in o w).1))
      × (commit_in o (commit_in o w).1 ≡ (ok 0, (commit_in o w).1))
settled_once o reason again w c =
    let r = done_lem o (release_in o reason w).1 (release_in-IsSettled o reason w c) in
    let s = done_lem o (commit_in o w).1 (commit_in-IsSettled o w c) in
    (r.0 again, r.1, s.0 again, s.1)

-- What `confirmReservation` does to the rows.
abbrev pub unexpiring : ℕ → List ReservationRow → List ReservationRow
unexpiring o vs = map (λ v. if holds o v then record v { expires_at = none } else v) vs

pub confirmed_rows :
    (o : ℕ) (w : Inventory) → (confirm_in o w).1.db.reservations ≡ unexpiring o w.db.reservations
unfolding confirm_in confirm_reservation
confirmed_rows o w = ground arith

-- The delivery has been received.
abbrev Received : {A : Type 0} → String → A → Inventory → Type 0
Received id _ w = any (λ e. str_eq e id) w.db.processed_events ≡ true

release_for-Received :
    (id : String) (o : Option ℕ) (w : Inventory)
    → IsConsistent w.db
    → Received id tt w
    → Ensures (Received id) (release_for o w)
release_for-Received id none w c h = tt
release_for-Received id (some o) w c h =
    let (w', e, s) = release_in-Settles o "order cancelled" w c in
    rw e (ap (any (λ x. str_eq x id)) s.receipts_kept ∙ h)

commit_for-Received :
    (id : String) (o : Option ℕ) (w : Inventory)
    → IsConsistent w.db
    → Received id tt w
    → Ensures (Received id) (commit_for o w)
commit_for-Received id none w c h = tt
commit_for-Received id (some o) w c h =
    let (w', e, s) = commit_in-Settles o w c in
    rw e (ap (any (λ x. str_eq x id)) s.receipts_kept ∙ h)

apply_event-Received :
    (id : String) (p : OrderEventPayload) (w : Inventory)
    → IsConsistent w.db
    → Received id tt w
    → Ensures (Received id) (apply_event p w)
unfolding apply_event
apply_event-Received id p w c h = elim (Bool-cases (str_eq p.to_status "CANCELLED")) [
  | inl e ↦ rw e (release_for-Received id p.order_id w c h)
  | inr e ↦ elim (Bool-cases (str_eq p.to_status "SHIPPED")) [
    | inl f ↦ rw (e, f) (commit_for-Received id p.order_id w c h)
    | inr f ↦ rw (e, f) h
  ]
]

any-append : (id : String) (ids : List String) → any (λ e. str_eq e id) (ids ++ id ∷ []) ≡ true
any-append id [] = rw ((eq_iff id id).1 refl) refl
any-append id (x ∷ ids) = ground (arith, any-append id ids)

handle_in-Received :
    (id : String) (p : OrderEventPayload) (w : Inventory)
    → IsConsistent w.db
    → Ensures (Received id) (handle_in id p w)
unfolding handle_in mark_event_processed
handle_in-Received id p w c = elim (Bool-cases (any (λ e. str_eq e id) w.db.processed_events)) [
  | inl h ↦ rw h h
  | inr h ↦ rw h (
      apply_event-Received id p (received id w)
        (same-IsConsistent w.db (received id w).db refl refl c)
        (any-append id w.db.processed_events))
]

handled_lem :
    (id : String) (p : OrderEventPayload) (w : Inventory)
    → IsConsistent w.db
    → Ensures (Received id) (handle_order_event id p w)
unfolding handle_order_event transaction
handled_lem id p w c =
    with_transaction-Ensures (Received id) other_error (handle_in id p) w
      (handle_in-Received id p (begun w) c)

skipped_lem :
    (id : String) (p : OrderEventPayload) (w : Inventory)
    → any (λ e. str_eq e id) w.db.processed_events ≡ true
    → next_fault w.faults ≡ healthy
    → handle_order_event id p w ≡ (ok Status.skipped, begun w)
unfolding handle_order_event transaction with_transaction handle_in mark_event_processed
skipped_lem id p w h f = rw (f, h)

-- On a consistent database, when a delivery of the order-event webhook has been answered, another with
-- the same id, whatever it carries, is skipped, if its transaction meets no fault, and the database
-- and the counters stay as they are.
pub handle_order_event_once :
    (id : String) (p p' : OrderEventPayload) (w : Inventory) (st : Status)
    → IsConsistent w.db
    → (handle_order_event id p w).0 ≡ ok st
    → next_fault (handle_order_event id p w).1.faults ≡ healthy
    → handle_order_event id p' (handle_order_event id p w).1 ≡ (
      ok Status.skipped,
      record (handle_order_event id p w).1 {
        faults = later_faults (handle_order_event id p w).1.faults;
      },
    )
handle_order_event_once id p p' w st c e f =
    skipped_lem id p' (handle_order_event id p w).1
      (Ensures-ok (Received id) (handle_order_event id p w) st e (handled_lem id p w c)) f

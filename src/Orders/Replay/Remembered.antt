-- ===== src/Orders/Replay/Remembered.antt =====
-- What an answer of `placeOrder`, apps/workflow-service/src/orders/orders.service.ts, leaves of its
-- idempotency key.
use ecommerce_orderflow.Prelude.{
  ℕ, ◌≡◌, refl, ap, ◌∙◌, String, str_eq, eq_iff, List, true, Option, none, some, inl, inr, find,
  find-map_if, find-append, ==_self, arith, Bool-cases,
}
use ecommerce_orderflow.Runtime.{Result, ok, err, ◌>>=◌, pure, throw}
use ecommerce_orderflow.Runtime.Laws.{Ensures, bind-Ensures, begun, with_transaction-Ensures}
use ecommerce_orderflow.Inventory.Service.Record.{Line}
use ecommerce_orderflow.Orders.Errors.{Thrown, other_error}
use ecommerce_orderflow.Orders.Tables.{
  OrderResult, KeyStatus, in_progress, succeeded, failed, IdempotencyRow, Orders,
}
use ecommerce_orderflow.Orders.Repository.{
  transaction, Claim, claimed, conflict, claim_in_progress, replay, same_key, fresh_key,
  claim_by_status, earlier_claim, claim_row, claim_idempotency_key, complete_idempotency_key,
  fail_idempotency_key,
}
use ecommerce_orderflow.Orders.Transition.{Session}
use ecommerce_orderflow.Orders.Client.{System, on_orders}
use ecommerce_orderflow.Orders.Placement.{
  Env, operation, place_order_inner, fail_key, complete_key, attempt_with_key, by_claim,
  place_keyed,
}
use ecommerce_orderflow.Orders.Keys.{SagaKeyed, place_order_inner-Keyed}

module _ (user : ℕ) (key print : String) where
  -- The key has a row, of the same payload.
  abbrev pub Claims : IdempotencyRow → Orders → Type 0
  Claims row w =
      (find (same_key operation user key) w.db.idempotency_keys ≡ some row)
      × (str_eq row.fingerprint print ≡ true)

  -- The key's request has been answered, and the answer is on record.
  abbrev pub Remembers : Option OrderResult → Orders → Type 0
  Remembers x w =
      (row : IdempotencyRow) × Claims row w × (row.status ≡ succeeded) × (row.response ≡ x)

  -- What the outcome of a claim says of the key.
  abbrev Claimed : Claim → Orders → Type 0
  Claimed claimed w = (row : IdempotencyRow) × Claims row w
  Claimed (replay x) w = Remembers x w
  Claimed conflict w = Unit
  Claimed claim_in_progress w = Unit

  status-Claimed :
      (st : KeyStatus) (row : IdempotencyRow) (w : Orders)
      → row.status ≡ st
      → Claims row w
      → Claimed (claim_by_status st row.response) w
  status-Claimed succeeded row w e h = (row, h, e, refl)
  status-Claimed in_progress row w e h = tt
  status-Claimed failed row w e h = (row, h)

  earlier-Claimed :
      (row : IdempotencyRow) (w : Orders)
      → find (same_key operation user key) w.db.idempotency_keys ≡ some row
      → Claimed (earlier_claim print row) w
  unfolding earlier_claim
  earlier-Claimed row w e = elim (Bool-cases (str_eq row.fingerprint print)) [
    | inl h ↦ rw h (status-Claimed row.status row w refl (e, h))
    | inr h ↦ rw h tt
  ]

  fresh_lem : same_key operation user key (fresh_key operation user key print) ≡ true
  fresh_lem = ground (arith, ==_self user, (eq_iff key key).1 refl)

  claim_row-Claimed :
      (x : Option IdempotencyRow) (w : Orders)
      → find (same_key operation user key) w.db.idempotency_keys ≡ x
      → Ensures Claimed (claim_row (fresh_key operation user key print) x w)
  claim_row-Claimed (some row) w e = earlier-Claimed row w e
  claim_row-Claimed none w e = (
    fresh_key operation user key print,
    (
      find-append (same_key operation user key) (fresh_key operation user key print)
          w.db.idempotency_keys fresh_lem e,
      (eq_iff print print).1 refl,
    ),
  )

  claim-Claimed : (w : Orders) → Ensures Claimed (claim_idempotency_key operation user key print w)
  unfolding claim_idempotency_key
  claim-Claimed w =
      claim_row-Claimed (find (same_key operation user key) w.db.idempotency_keys) w refl

  complete-Remembers :
      (r : OrderResult) (row : IdempotencyRow) (w : Orders)
      → Claims row w
      → Ensures (λ _ w'. Remembers (some r) w') (complete_idempotency_key operation user key r w)
  unfolding complete_idempotency_key
  complete-Remembers r row w h = (
    record row { status = succeeded; response = some r },
    (
      find-map_if (same_key operation user key)
          (λ x. record x { status = succeeded; response = some r }) (λ x. refl)
          w.db.idempotency_keys row h.0,
      h.1,
    ),
    refl,
    refl,
  )

  -- After an attempt that succeeds, the answer is on record.
  fail_key-err :
      (P : OrderResult → System → Type 0) (x : Result Thrown OrderResult × System)
      → Ensures P x
      → Ensures P (fail_key user key x)
  fail_key-err P (ok r, s) h = h
  fail_key-err P (err e, s) h =
      bind-Ensures (λ _ _. Unit {0}) P (on_orders (fail_idempotency_key operation user key))
        (λ _. throw e) s (trivially (on_orders (fail_idempotency_key operation user key) s))
        (λ _ _ _. tt)
    where
      trivially : (y : Result Thrown (Unit {0}) × System) → Ensures (λ _ _. Unit {0}) y
      trivially (ok a, s) = tt
      trivially (err e, s) = tt

  lifted-Remembers :
      (r : OrderResult) (x : Result Thrown (Unit {0}) × Orders) (s : System)
      → Ensures (λ _ w. Remembers (some r) w) x
      → Ensures (λ _ s'. Remembers (some r) s'.orders) (x.0, record s { orders = x.1 })
  lifted-Remembers r (ok a, w) s h = h
  lifted-Remembers r (err e, w) s h = tt

  complete_key-Remembers :
      (r : OrderResult) (row : IdempotencyRow) (s : System)
      → Claims row s.orders
      → Ensures (λ r' s'. Remembers (some r') s'.orders) (complete_key user key r s)
  unfolding transaction
  complete_key-Remembers r row s h =
      let completing = transaction (complete_idempotency_key operation user key r) in
      bind-Ensures (λ _ s'. Remembers (some r) s'.orders) (λ r' s'. Remembers (some r') s'.orders)
        (on_orders completing) (λ _. pure r) s
        (lifted-Remembers r (completing s.orders) s (
          with_transaction-Ensures (λ _ w. Remembers (some r) w) other_error
            (complete_idempotency_key operation user key r) s.orders
            (complete-Remembers r row (begun s.orders) h)))
        (λ _ s₁ h₁. h₁)

  attempt_with_key-Remembers :
      (env : Env) (session : Session) (items : List Line) (row : IdempotencyRow) (s : System)
      → Claims row s.orders
      → Ensures
          (λ r s'. Remembers (some r) s'.orders)
          (attempt_with_key env session user items key s)
  unfolding attempt_with_key
  attempt_with_key-Remembers env session items row s h =
      fail_key-err (λ r s'. Remembers (some r) s'.orders)
        ((place_order_inner env session user items >>= complete_key user key) s)
        (bind-Ensures (SagaKeyed s.orders.db.idempotency_keys)
          (λ r s'. Remembers (some r) s'.orders) (place_order_inner env session user items)
          (complete_key user key) s
          (place_order_inner-Keyed s.orders.db.idempotency_keys env session user items s refl)
          (λ r s₁ k.
            complete_key-Remembers r row s₁ (ap (find (same_key operation user key)) k ∙ h.0, h.1)))

  by_claim-Remembers :
      (env : Env) (session : Session) (items : List Line) (c : Claim) (s : System)
      → Claimed c s.orders
      → Ensures (λ r s'. Remembers (some r) s'.orders) (by_claim env session user items key c s)
  by_claim-Remembers env session items conflict s h = tt
  by_claim-Remembers env session items claim_in_progress s h = tt
  by_claim-Remembers env session items (replay none) s h = tt
  by_claim-Remembers env session items (replay (some r)) s h = h
  by_claim-Remembers env session items claimed s h =
      attempt_with_key-Remembers env session items h.0 s h.1

  lifted-Claimed :
      (x : Result Thrown Claim × Orders) (s : System)
      → Ensures Claimed x
      → Ensures (λ c s'. Claimed c s'.orders) (x.0, record s { orders = x.1 })
  lifted-Claimed (ok a, w) s h = h
  lifted-Claimed (err e, w) s h = tt

pub place_keyed-Remembers :
    (env : Env) (session : Session) (user : ℕ) (items : List Line) (key : String) (s : System)
    → Ensures
        (λ r s'. Remembers user key (env.fingerprint items) (some r) s'.orders)
        (place_keyed env session user items (some key) s)
unfolding transaction
place_keyed-Remembers env session user items key s =
    let print = env.fingerprint items in
    let claiming = claim_idempotency_key operation user key print in
    bind-Ensures (λ c s'. Claimed user key print c s'.orders)
      (λ r s'. Remembers user key print (some r) s'.orders) (on_orders (transaction claiming))
      (by_claim env session user items key) s
      (lifted-Claimed user key print (transaction claiming s.orders) s (
        with_transaction-Ensures (Claimed user key print) other_error claiming s.orders
          (claim-Claimed user key print (begun s.orders))))
      (by_claim-Remembers user key print env session items)

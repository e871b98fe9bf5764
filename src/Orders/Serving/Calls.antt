-- ===== src/Orders/Serving/Calls.antt =====
-- `placeOrder` of apps/workflow-service/src/orders/orders.service.ts keeps what each of its steps keeps.
use ecommerce_orderflow.Prelude.{ℕ, String, List, Option, none, some}
use ecommerce_orderflow.Runtime.{Result, ok, err, pure, throw, continue, ◌>>=◌}
use ecommerce_orderflow.Domain.Transitions.{Role}
use ecommerce_orderflow.Inventory.Service.Record.{Line}
use ecommerce_orderflow.Orders.Errors.{Thrown}
use ecommerce_orderflow.Orders.Tables.{OrderResult}
use ecommerce_orderflow.Orders.Repository.{
  transaction, Claim, claimed, conflict, replay, claim_in_progress, claim_idempotency_key,
  complete_idempotency_key, fail_idempotency_key,
}
use ecommerce_orderflow.Orders.Transition.{Session}
use ecommerce_orderflow.Orders.Client.{
  System, Saga, on_orders, reserve_stock, confirm_stock, release_quietly,
}
use ecommerce_orderflow.Orders.Placement.{
  Env, PlaceOrderInput, price_order, write_order, compensate, write_or_release, count_placed,
  place_order_inner, operation, fail_key, complete_key, attempt_with_key, by_claim, place_keyed,
  place_as, PricedLine,
}

module _ (P : System → Type 0) where
  -- A step that keeps a property of the system, whether it returns or throws.
  abbrev pub Keeps : {A : Type 0} → Saga A → Type 0
  Keeps call = (s : System) → P s → P (call s).1

  module _ {A B : Type 0} where
    continue-Keeps :
        (f : A → Saga B) → ((a : A) → Keeps (f a)) → (r : Result Thrown A) → Keeps (continue r f)
    continue-Keeps f k (ok a) s h = k a s h
    continue-Keeps f k (err e) s h = h

    pub bind-Keeps :
        (m : Saga A) (f : A → Saga B) → Keeps m → ((a : A) → Keeps (f a)) → Keeps (m >>= f)
    bind-Keeps m f h k s a = continue-Keeps f k (m s).0 (m s).1 (h s a)

  -- The steps of a placement.
  pub record StepsKeep : Type 0 where
    pub price_keeps : (ls : List Line) → Keeps (on_orders (price_order ls))
    pub reserve_keeps : (ttl now o : ℕ) (ls : List Line) → Keeps (reserve_stock ttl now o ls)
    pub write_keeps :
        (o user : ℕ) (role : Role) (ls : List PricedLine)
        → Keeps (on_orders (transaction (write_order o user role ls)))
    pub release_keeps : (o : ℕ) → Keeps (release_quietly o)
    pub confirm_keeps : (o : ℕ) → Keeps (confirm_stock o)
    pub count_keeps : (role : Role) → Keeps (on_orders (count_placed role))
    pub claim_keeps :
        (user : ℕ) (key print : String)
        → Keeps (on_orders (transaction (claim_idempotency_key operation user key print)))
    pub complete_keeps :
        (user : ℕ) (key : String) (r : OrderResult)
        → Keeps (on_orders (transaction (complete_idempotency_key operation user key r)))
    pub fail_keeps :
        (user : ℕ) (key : String) → Keeps (on_orders (fail_idempotency_key operation user key))

module _ (P : System → Type 0) (kept : StepsKeep P) where
  compensate-Keeps : (o : ℕ) (x : Result Thrown OrderResult × System) → P x.1 → P (compensate o x).1
  compensate-Keeps o (ok r, s) a = a
  compensate-Keeps o (err e, s) a =
      bind-Keeps P (release_quietly o) (λ _. throw e) (kept.release_keeps o) (λ _ s h. h) s a

  write_or_release-Keeps :
      (o user : ℕ) (role : Role) (ls : List PricedLine) → Keeps P (write_or_release o user role ls)
  unfolding write_or_release
  write_or_release-Keeps o user role ls s a =
      compensate-Keeps o (on_orders (transaction (write_order o user role ls)) s)
        (kept.write_keeps o user role ls s a)

  place_order_inner-Keeps :
      (env : Env) (session : Session) (user : ℕ) (ls : List Line)
      → Keeps P (place_order_inner env session user ls)
  unfolding place_order_inner
  place_order_inner-Keeps env session user ls =
      let counted = λ (o : OrderResult). on_orders (count_placed session.role) >>= λ _. pure o in
      let confirming = λ (o : OrderResult). confirm_stock env.order_id >>= λ _. counted o in
      let writing = λ (lines : List PricedLine).
        write_or_release env.order_id user session.role lines >>= confirming in
      bind-Keeps P (on_orders (price_order ls))
        (λ lines. reserve_stock env.ttl env.now env.order_id ls >>= λ _. writing lines)
        (kept.price_keeps ls)
        λ lines.
          bind-Keeps P (reserve_stock env.ttl env.now env.order_id ls) (λ _. writing lines)
            (kept.reserve_keeps env.ttl env.now env.order_id ls)
            λ _.
              bind-Keeps P (write_or_release env.order_id user session.role lines) confirming
                (write_or_release-Keeps env.order_id user session.role lines)
                λ o.
                  bind-Keeps P (confirm_stock env.order_id) (λ _. counted o)
                    (kept.confirm_keeps env.order_id)
                    λ _.
                      bind-Keeps P (on_orders (count_placed session.role)) (λ _. pure o)
                        (kept.count_keeps session.role) (λ _ s a. a)

  fail_key-Keeps :
      (user : ℕ) (key : String) (x : Result Thrown OrderResult × System)
      → P x.1
      → P (fail_key user key x).1
  fail_key-Keeps user key (ok r, s) a = a
  fail_key-Keeps user key (err e, s) a =
      bind-Keeps P (on_orders (fail_idempotency_key operation user key)) (λ _. throw e)
        (kept.fail_keeps user key) (λ _ s h. h) s a

  complete_key-Keeps :
      (user : ℕ) (key : String) (r : OrderResult) → Keeps P (complete_key user key r)
  complete_key-Keeps user key r =
      bind-Keeps P (on_orders (transaction (complete_idempotency_key operation user key r)))
        (λ _. pure r) (kept.complete_keeps user key r) (λ _ s a. a)

  attempt_with_key-Keeps :
      (env : Env) (session : Session) (user : ℕ) (ls : List Line) (key : String)
      → Keeps P (attempt_with_key env session user ls key)
  unfolding attempt_with_key
  attempt_with_key-Keeps env session user ls key s a =
      fail_key-Keeps user key ((place_order_inner env session user ls >>= complete_key user key) s)
        (bind-Keeps P (place_order_inner env session user ls) (complete_key user key)
          (place_order_inner-Keeps env session user ls) (complete_key-Keeps user key) s a)

  by_claim-Keeps :
      (env : Env) (session : Session) (user : ℕ) (ls : List Line) (key : String) (c : Claim)
      → Keeps P (by_claim env session user ls key c)
  by_claim-Keeps env session user ls key conflict s a = a
  by_claim-Keeps env session user ls key claim_in_progress s a = a
  by_claim-Keeps env session user ls key (replay none) s a = a
  by_claim-Keeps env session user ls key (replay (some r)) s a = a
  by_claim-Keeps env session user ls key claimed s a =
      attempt_with_key-Keeps env session user ls key s a

  place_keyed-Keeps :
      (env : Env) (session : Session) (user : ℕ) (ls : List Line) (key : Option String)
      → Keeps P (place_keyed env session user ls key)
  place_keyed-Keeps env session user ls none = place_order_inner-Keeps env session user ls
  place_keyed-Keeps env session user ls (some key) =
      bind-Keeps P
        (on_orders (transaction (claim_idempotency_key operation user key (env.fingerprint ls))))
        (by_claim env session user ls key) (kept.claim_keeps user key (env.fingerprint ls))
        (by_claim-Keeps env session user ls key)

  pub place_as-Keeps :
      (env : Env) (session : Session) (user : Option ℕ) (input : PlaceOrderInput)
      → Keeps P (place_as env session user input)
  place_as-Keeps env session none input s a = a
  place_as-Keeps env session (some user) input s a =
      place_keyed-Keeps env session user input.items input.idempotency_key s a

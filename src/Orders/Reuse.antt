-- ===== src/Orders/Reuse.antt =====
-- A key that comes back with other lines, in `placeOrder` of
-- apps/workflow-service/src/orders/orders.service.ts.
use ecommerce_orderflow.Prelude.{
  All, ℕ, String, str_eq, eq_iff, ◌≡◌, ◌≢◌, refl, sym, ap, ◌∙◌, true, false, List, Option, some,
  Bool-cases, inl, inr,
}
use ecommerce_orderflow.Runtime.{ok, err, healthy, next_fault, later_faults, with_transaction}
use ecommerce_orderflow.Runtime.Laws.{begun}
use ecommerce_orderflow.Inventory.Service.Record.{Line}
use ecommerce_orderflow.Orders.Errors.{idempotency_conflict}
use ecommerce_orderflow.Orders.Tables.{OrderResult}
use ecommerce_orderflow.Orders.Repository.{transaction, claim_idempotency_key, earlier_claim}
use ecommerce_orderflow.Orders.Transition.{Session}
use ecommerce_orderflow.Orders.Client.{System}
use ecommerce_orderflow.Orders.Placement.{Env, PlaceOrderInput, place_keyed, place_order}
use ecommerce_orderflow.Orders.Replay.{keyed_lem, answered-Remembers}
use ecommerce_orderflow.Orders.Replay.Remembered.{Remembers}
use ecommerce_orderflow.Orders.Fingerprint.{Text, canonicalise, fingerprint}
use ecommerce_orderflow.Orders.Fingerprint.Payload.{Writing, payload, request_print}
use ecommerce_orderflow.Orders.Fingerprint.Payload.Distinct.{
  IsWriting, IsWritable, payload_form_iff,
}

other_print :
    (row print print' : String)
    → str_eq row print ≡ true
    → print' ≢ print
    → str_eq row print' ≡ false
other_print row print print' e n = elim (Bool-cases (str_eq row print')) [
  | inl h ↦ absurd (n (sym ((eq_iff row print').0 h) ∙ (eq_iff row print).0 e))
  | inr h ↦ h
]

-- A key that is on record for another payload.
conflicts :
    (env : Env) (session : Session) (user : ℕ) (items : List Line) (key print : String)
    (x : Option OrderResult) (s : System)
    → Remembers user key print x s.orders
    → env.fingerprint items ≢ print
    → next_fault s.orders.faults ≡ healthy
    → place_keyed env session user items (some key) s
      ≡ (err (idempotency_conflict key), record s { orders = begun s.orders })
unfolding transaction with_transaction claim_idempotency_key earlier_claim
conflicts env session user items key print x s (row, c, st, rs) n f =
    rw (f, c.0, other_print row.fingerprint print (env.fingerprint items) c.1 n) refl

-- Other lines have another print, unless their digests collide.
print_differs :
    (w : Writing) (sha256 : Text → String) (ls ms : List Line)
    → IsWriting w
    → (sha256 (canonicalise w.stringify (payload w ms))
          ≡ sha256 (canonicalise w.stringify (payload w ls))
        → canonicalise w.stringify (payload w ms) ≡ canonicalise w.stringify (payload w ls))
    → ms ≢ ls
    → All IsWritable ls
    → All IsWritable ms
    → request_print w sha256 ms ≢ request_print w sha256 ls
unfolding request_print fingerprint
print_differs w sha256 ls ms h c n k k' e = n ((payload_form_iff w h ms ls k' k).0 (c e))

-- Once `placeOrder` has answered a request with a key, a request of the same user with that key and other
-- lines is refused as a conflict, if the claim's transaction meets no fault: no order is placed and no stock is
-- held; one transaction has run. The conditions are that the digests of the two canonical forms do not collide,
-- and those on the writing of UUIDs and quantities under which different lines have different forms.
pub place_order_reused :
    (w : Writing) (sha256 : Text → String) (env env' : Env) (session : Session)
    (input input' : PlaceOrderInput) (user : ℕ) (key : String) (s : System) (r : OrderResult)
    → IsWriting w
    → (sha256 (canonicalise w.stringify (payload w input'.items))
          ≡ sha256 (canonicalise w.stringify (payload w input.items))
        → canonicalise w.stringify (payload w input'.items)
          ≡ canonicalise w.stringify (payload w input.items))
    → env.fingerprint ≡ request_print w sha256
    → env'.fingerprint ≡ request_print w sha256
    → session.user_id ≡ some user
    → input.idempotency_key ≡ some key
    → input'.idempotency_key ≡ some key
    → input'.items ≢ input.items
    → All IsWritable input.items
    → All IsWritable input'.items
    → (place_order env session input s).0 ≡ ok r
    → next_fault (place_order env session input s).1.orders.faults ≡ healthy
    → place_order env' session input' (place_order env session input s).1 ≡ (
      err (idempotency_conflict key),
      record (place_order env session input s).1 {
        orders = record (place_order env session input s).1.orders {
          faults = later_faults (place_order env session input s).1.orders.faults;
        };
      },
    )
place_order_reused w sha256 env env' session input input' user key s r h c p p' u k k' n ws ws' e
      f =
    let s₁ = (place_order env session input s).1 in
    keyed_lem env' session input' user key s₁ u k'
    ∙ conflicts env' session user input'.items key (env.fingerprint input.items) (some r) s₁
        (answered-Remembers env session input user key s r u k e)
        (λ q.
          print_differs w sha256 input.items input'.items h c n ws ws'
            (sym (ap (λ g. g input'.items) p') ∙ q ∙ ap (λ g. g input.items) p))
        f

-- ===== src/Orders/Fingerprint/Tests.antt =====
-- The canonical form at concrete payloads.
use ecommerce_orderflow.Prelude.{
  ℕ, zero, suc, String, ◌≡◌, ◌≢◌, ◌↔◌, refl, ap, List, [], ◌∷◌, ◌++◌, some, false, ◌==◌, length,
  arith, if◌then◌else◌, ltb, All, ◌+◌, ◌-◌,
}
use ecommerce_orderflow.Runtime.{err, later_faults}
use ecommerce_orderflow.Inventory.Service.Record.{Line}
use ecommerce_orderflow.Orders.Errors.{idempotency_conflict}
use ecommerce_orderflow.Orders.Placement.{Env, PlaceOrderInput, place_order}
use ecommerce_orderflow.Orders.Checkout.{
  empty_house, shopper, basket, first_try, second_try, placed, checkout_accepted, basket_healthy,
}
use ecommerce_orderflow.Orders.Fingerprint.{
  Text, text, Json, primitive, object, end, field, sort_entries, canonicalise, fingerprint,
}
use ecommerce_orderflow.Orders.Fingerprint.Same.{Same, same_object, same_swapped, fingerprint-Same}
use ecommerce_orderflow.Orders.Fingerprint.Payload.{Writing, payload, request_print}
use ecommerce_orderflow.Orders.Fingerprint.Payload.Units.{Lacks}
use ecommerce_orderflow.Orders.Fingerprint.Payload.Distinct.{
  IsPlain, IsWriting, IsWritable, payload_form_iff,
}
use ecommerce_orderflow.Orders.Reuse.{place_order_reused}

-- Ids and numbers as tallies.
abbrev tally : ℕ → ℕ → Text
tally c zero = []
tally c (suc n) = c ∷ tally c n

abbrev hexadecimal : ℕ → ℕ
hexadecimal n = if ltb n 10 then b'0' + n else b'W' + n

abbrev long_escape : ℕ → Text
long_escape x =
    text "u00" ++ (if ltb x 16 then b'0' ∷ hexadecimal x ∷ [] else b'1' ∷ hexadecimal (x - 16) ∷ [])

-- The escapes of `JSON.stringify` for a control character, by its code.
abbrev control_escape : ℕ → Text
control_escape x =
    if x == 8
    then b'b' ∷ []
    else if x == 9
    then b't' ∷ []
    else if x == 10
    then b'n' ∷ []
    else if x == 12
    then b'f' ∷ []
    else if x == 13
    then b'r' ∷ []
    else long_escape x

abbrev escaped_unit : ℕ → Text
escaped_unit x =
    if x == b'"'
    then b'\\' ∷ b'"' ∷ []
    else if x == b'\\'
    then b'\\' ∷ b'\\' ∷ []
    else if ltb x 32
    then b'\\' ∷ control_escape x
    else x ∷ []

abbrev escaped : Text → Text
escaped [] = []
escaped (x ∷ t) = escaped_unit x ++ escaped t

-- `JSON.stringify` of a text without surrogates.
abbrev quoted : Text → Text
quoted t = b'"' ∷ (escaped t ++ b'"' ∷ [])

abbrev tallies : Writing
tallies = record { stringify = quoted; uuid = tally b'a'; number = tally b'1' }

length-tally : (c n : ℕ) → length (tally c n) ≡ n
length-tally c zero = refl
length-tally c (suc n) = ap suc (length-tally c n)

tally-inj : (c m n : ℕ) → tally c m ≡ tally c n → m ≡ n
tally-inj c m n e = omega (arith, length-tally c m, length-tally c n, ap length e)

tally-Lacks : (c d n : ℕ) → (c == d) ≡ false → Lacks d (tally c n)
tally-Lacks c d zero e = tt
tally-Lacks c d (suc n) e = (e, tally-Lacks c d n e)

tally-IsPlain : (n : ℕ) → IsPlain (tally b'a' n)
tally-IsPlain zero = tt
tally-IsPlain (suc n) = (refl, tally-IsPlain n)

-- A plain text needs no escape.
escaped_lem : (t : Text) → IsPlain t → escaped t ≡ t
escaped_lem [] h = refl
escaped_lem (x ∷ t) h = rw (escaped_unit_lem, escaped_lem t h.1) refl
  where
    escaped_unit_lem : escaped_unit x ≡ x ∷ []
    escaped_unit_lem = ground (arith, h.0)

-- The quote and the line feed are escaped.
escaped_text : quoted (text "a\"\n") ≡ text "\"a\\\"\\n\""
escaped_text = refl

tallies-IsWriting : IsWriting tallies
tallies-IsWriting = record {
  quotes = λ t h. ap (λ u. b'"' ∷ (u ++ b'"' ∷ [])) (escaped_lem t h);
  uuid_plain = λ l _. tally-IsPlain l.product_id;
  uuid_inj = λ l m _ _. tally-inj b'a' l.product_id m.product_id;
  number_plain = λ l _. tally-Lacks b'1' b'}' l.quantity refl;
  number_inj = λ l m _ _. tally-inj b'1' l.quantity m.quantity;
}

-- A digest by the length.
abbrev digest : Text → String
digest t = if length t == 49 then "" else "odd"

abbrev left : Json
left =
    object (field (text "b") (primitive (text "1")) (field (text "a") (primitive (text "2")) end))

abbrev right : Json
right =
    object (field (text "a") (primitive (text "2")) (field (text "b") (primitive (text "1")) end))

sorted_form : canonicalise quoted left ≡ text "{\"a\":2,\"b\":1}"
unfolding canonicalise sort_entries
sorted_form = refl

letters_differ : text "b" ≢ text "a"
letters_differ e = omega (arith, ap (λ (t : Text). if length t == 1 then first t else 0) e)
  where
    first : Text → ℕ
    first [] = 0
    first (x ∷ xs) = x

left-Same-right : Same left right
left-Same-right = same_object (
    same_swapped (text "b") (text "a") (primitive (text "1")) (primitive (text "2")) letters_differ)

fingerprint-Same_example : fingerprint quoted digest left ≡ fingerprint quoted digest right
fingerprint-Same_example = fingerprint-Same quoted digest left right left-Same-right

abbrev three : PlaceOrderInput
three = record {
  items = record { product_id = 7; quantity = 3 } ∷ [];
  idempotency_key = some "key-0001";
}

basket-IsWritable : All IsWritable basket.items
basket-IsWritable = ((omega arith, omega arith), tt)

three-IsWritable : All IsWritable three.items
three-IsWritable = ((omega arith, omega arith), tt)

payload_form_iff_example :
    (canonicalise quoted (payload tallies basket.items)
      ≡ canonicalise quoted (payload tallies three.items))
    ↔ (basket.items ≡ three.items)
payload_form_iff_example =
    payload_form_iff tallies tallies-IsWriting basket.items three.items basket-IsWritable
      three-IsWritable

abbrev first_quantity : List Line → ℕ
first_quantity [] = 0
first_quantity (l ∷ ls) = l.quantity

others_differ : three.items ≢ basket.items
others_differ e = omega (arith, ap first_quantity e)

abbrev printing : Env → Env
printing env = record env { fingerprint = request_print tallies digest }

digests_differ :
    digest (canonicalise quoted (payload tallies three.items))
    ≢ digest (canonicalise quoted (payload tallies basket.items))
unfolding canonicalise sort_entries
digests_differ e = absurd (cc)

place_order_reused_example :
    place_order
      (printing second_try)
      shopper
      three
      (place_order (printing first_try) shopper basket (empty_house [])).1
    ≡ (
      err (idempotency_conflict "key-0001"),
      record (place_order (printing first_try) shopper basket (empty_house [])).1 {
        orders =
            record (place_order (printing first_try) shopper basket (empty_house [])).1.orders {
              faults =
                  later_faults
                    (place_order
                      (printing first_try)
                      shopper
                      basket
                      (empty_house [])).1.orders.faults;
            };
      },
    )
place_order_reused_example =
    place_order_reused tallies digest (printing first_try) (printing second_try) shopper basket
      three 4 "key-0001" (empty_house []) placed tallies-IsWriting (λ e. absurd (digests_differ e))
      refl refl refl refl refl others_differ basket-IsWritable three-IsWritable
      (checkout_accepted (request_print tallies digest))
      (basket_healthy (request_print tallies digest))

-- ===== src/Orders/Fingerprint/Payload/Distinct.antt =====
-- Different orders have different canonical forms, in apps/workflow-service/src/common/idempotency.ts.
use mathlib.Core.List.{append_cancel_left}
use ecommerce_orderflow.Prelude.{
  ◌<◌, Bool, true, false, not, ◌&&◌, ◌==◌, leb, ltb, All, All-map, ℕ, ◌≡◌, ◌↔◌, refl, sym, ap, ap₂,
  ◌∙◌, List, [], ◌∷◌, ◌++◌, map, arith,
}
use ecommerce_orderflow.Inventory.Service.Record.{Line}
use ecommerce_orderflow.Orders.Fingerprint.{
  Text, text, canonicalise, sort_entries, join, join_more, forms,
}
use ecommerce_orderflow.Orders.Fingerprint.Payload.{Writing, line_json, items_json, payload}
use ecommerce_orderflow.Orders.Fingerprint.Payload.Units.{Lacks, split_at, assoc_text, nil_text}

-- Printable ASCII but the quote and the backslash: what `JSON.stringify` leaves as it is.
abbrev is_plain : ℕ → Bool
is_plain x = leb 32 x && (ltb x 127 && (not (x == b'"') && not (x == b'\\')))

abbrev pub IsPlain : Text → Type 0
IsPlain t = All (λ x. is_plain x ≡ true) t

-- A line with a UUID of 128 bits and a quantity below 2^53, up to which the numbers of JavaScript are exact.
abbrev pub IsWritable : Line → Type 0
IsWritable l =
    (l.product_id < 340282366920938463463374607431768211456) × (l.quantity < 9007199254740992)

-- What the writing of values does: a plain text is put into quotes; the text of a UUID is plain and tells the
-- UUID, and that of a number has no brace and tells the number.
pub record IsWriting (w : Writing) : Type 0 where
  pub quotes : (t : Text) → IsPlain t → w.stringify t ≡ b'"' ∷ (t ++ b'"' ∷ [])
  pub uuid_plain : (l : Line) → IsWritable l → IsPlain (w.uuid l.product_id)
  pub uuid_inj :
      (l m : Line)
      → IsWritable l
      → IsWritable m
      → w.uuid l.product_id ≡ w.uuid m.product_id
      → l.product_id ≡ m.product_id
  pub number_plain : (l : Line) → IsWritable l → Lacks b'}' (w.number l.quantity)
  pub number_inj :
      (l m : Line)
      → IsWritable l
      → IsWritable m
      → w.number l.quantity ≡ w.number m.quantity
      → l.quantity ≡ m.quantity

plain-Lacks : (t : Text) → IsPlain t → Lacks b'"' t
plain-Lacks t h =
    All-map (λ x. is_plain x ≡ true) (λ x. (x == b'"') ≡ false) (λ x k. ground (arith, k)) t h

module _ (w : Writing) (h : IsWriting w) where
  -- The canonical form of a line.
  abbrev line_form : Line → Text
  line_form l = canonicalise w.stringify (line_json w l)

  abbrev opening : Text
  opening = b'{' ∷ (w.stringify (text "productId") ++ (b':' ∷ b'"' ∷ []))

  abbrev middle : Text
  middle = b',' ∷ (w.stringify (text "quantity") ++ (b':' ∷ []))

  line_form-parts :
      (l : Line) (rest : Text)
      → IsWritable l
      → line_form l ++ rest
        ≡ opening
          ++ (w.uuid l.product_id ++ b'"' ∷ (middle ++ (w.number l.quantity ++ b'}' ∷ rest)))
  unfolding canonicalise sort_entries
  line_form-parts l rest k =
      rw (h.quotes (w.uuid l.product_id) (h.uuid_plain l k)) (simp (assoc_text, nil_text) refl)

  abbrev line_with : ℕ → ℕ → Line
  line_with p q = record { product_id = p; quantity = q }

  -- The text of a line tells the line, and where it ends.
  line_form-split :
      (l m : Line) (r s : Text)
      → IsWritable l
      → IsWritable m
      → line_form l ++ r ≡ line_form m ++ s
      → (l ≡ m) × (r ≡ s)
  line_form-split l m r s k n e =
      let (p, f) =
        split_at b'"' (w.uuid l.product_id) (w.uuid m.product_id) _ _
          (plain-Lacks _ (h.uuid_plain l k)) (plain-Lacks _ (h.uuid_plain m n))
          (append_cancel_left opening _ _
            (sym (line_form-parts l r k) ∙ e ∙ line_form-parts m s n)) in
      let (q, g) =
        split_at b'}' (w.number l.quantity) (w.number m.quantity) r s (h.number_plain l k)
          (h.number_plain m n) (append_cancel_left middle _ _ f) in
      (ap₂ line_with (h.uuid_inj l m k n p) (h.number_inj l m k n q), g)

  forms-items_json : (ls : List Line) → forms w.stringify (items_json w ls) ≡ map line_form ls
  unfolding canonicalise
  forms-items_json [] = refl
  forms-items_json (l ∷ ls) = ap (λ ts. line_form l ∷ ts) (forms-items_json ls)

  abbrev first_unit : Text → ℕ
  first_unit [] = 0
  first_unit (x ∷ xs) = x

  abbrev other_units : Text → Text
  other_units [] = []
  other_units (x ∷ xs) = xs

  -- The lines after the first, up to the bracket.
  more-inj :
      (ls ms : List Line) (r s : Text)
      → All IsWritable ls
      → All IsWritable ms
      → join_more (map line_form ls) ++ b']' ∷ r ≡ join_more (map line_form ms) ++ b']' ∷ s
      → ls ≡ ms
  more-inj [] [] r s k n e = refl
  more-inj [] (m ∷ ms) r s k n e = absurd (omega (arith, ap first_unit e))
  more-inj (l ∷ ls) [] r s k n e = absurd (omega (arith, ap first_unit e))
  more-inj (l ∷ ls) (m ∷ ms) r s k n e =
      let (p, f) = line_form-split l m _ _ k.0 n.0 (
        sym (assoc_text (line_form l) (join_more (map line_form ls)) (b']' ∷ r))
        ∙ ap other_units e
        ∙ assoc_text (line_form m) (join_more (map line_form ms)) (b']' ∷ s)) in
      ap₂ ◌∷◌ p (more-inj ls ms r s k.1 n.1 f)

  first_of_line :
      (l : Line) (ls : List Line) (r : Text)
      → IsWritable l
      → first_unit (join (map line_form (l ∷ ls)) ++ b']' ∷ r) ≡ b'{'
  first_of_line l ls r k =
      ap first_unit
        (assoc_text (line_form l) (join_more (map line_form ls)) (b']' ∷ r) ∙ line_form-parts l _ k)

  lines-inj :
      (ls ms : List Line) (r s : Text)
      → All IsWritable ls
      → All IsWritable ms
      → join (map line_form ls) ++ b']' ∷ r ≡ join (map line_form ms) ++ b']' ∷ s
      → ls ≡ ms
  lines-inj [] [] r s k n e = refl
  lines-inj [] (m ∷ ms) r s k n e =
      absurd (omega (arith, ap first_unit e ∙ first_of_line m ms s n.0))
  lines-inj (l ∷ ls) [] r s k n e =
      absurd (omega (arith, sym (ap first_unit e) ∙ first_of_line l ls r k.0))
  lines-inj (l ∷ ls) (m ∷ ms) r s k n e =
      let (p, f) = line_form-split l m _ _ k.0 n.0 (
        sym (assoc_text (line_form l) (join_more (map line_form ls)) (b']' ∷ r))
        ∙ e
        ∙ assoc_text (line_form m) (join_more (map line_form ms)) (b']' ∷ s)) in
      ap₂ ◌∷◌ p (more-inj ls ms r s k.1 n.1 f)

  abbrev payload_opening : Text
  payload_opening = b'{' ∷ (w.stringify (text "items") ++ (b':' ∷ b'[' ∷ []))

  payload-parts :
      (ls : List Line)
      → canonicalise w.stringify (payload w ls)
        ≡ payload_opening ++ (join (map line_form ls) ++ b']' ∷ (b'}' ∷ []))
  unfolding canonicalise sort_entries
  payload-parts ls = rw (sym (forms-items_json ls)) (simp (assoc_text, nil_text) refl)

-- The canonical forms of two orders are one exactly when their lines are: a key that comes back with other
-- lines has another text digested. The conditions are that a printable ASCII text without a quote or a backslash
-- is written in quotes as it is, that a UUID is written as such a text that no other UUID has, and that a
-- quantity, below 2^53, is written without a brace and as no other one is.
pub payload_form_iff :
    (w : Writing)
    → IsWriting w
    → (ls ms : List Line) → All IsWritable ls
    → All IsWritable ms
    → (canonicalise w.stringify (payload w ls) ≡ canonicalise w.stringify (payload w ms))
      ↔ (ls ≡ ms)
payload_form_iff w h ls ms k n = (
  λ e. lines-inj w h ls ms (b'}' ∷ []) (b'}' ∷ []) k n (
      append_cancel_left (payload_opening w h) _ _
        (sym (payload-parts w h ls) ∙ e ∙ payload-parts w h ms)),
  λ e. ap (λ x. canonicalise w.stringify (payload w x)) e,
)

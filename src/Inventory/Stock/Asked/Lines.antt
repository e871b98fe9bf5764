-- ===== src/Inventory/Stock/Asked/Lines.antt =====
-- The map `wanted` of `reserve` in apps/inventory-service/src/inventory/inventory.service.ts, and the rows that its
-- lines become.
use ecommerce_orderflow.Prelude.{
  ℕ, ◌+◌, ◌≡◌, refl, ap, List, [], ◌∷◌, ◌++◌, map, Bool, false, ◌||◌, All, any, sum_by, ◌==◌, arith,
  inl, inr, Bool-cases, if◌then◌else◌, ◌&&◌,
}
use ecommerce_orderflow.Inventory.Tables.{ReservationRow, Inventory}
use ecommerce_orderflow.Inventory.Service.Record.{Line}
use ecommerce_orderflow.Inventory.Service.Reserve.{add_wanted, sum_lines}
use ecommerce_orderflow.Inventory.Stock.Consistency.{held_total}
use ecommerce_orderflow.Inventory.Stock.Holding.{new_hold}
use ecommerce_orderflow.Inventory.Stock.Settled.{found_for}

-- What the lines ask of a product.
abbrev pub asked_of : ℕ → Line → ℕ
asked_of p l = if l.product_id == p then l.quantity else 0

abbrev names : ℕ → List Line → Bool
names p ls = any (λ l. l.product_id == p) ls

abbrev pub Distinct : List Line → Type 0
Distinct [] = Unit
Distinct (l ∷ ls) = (names l.product_id ls ≡ false) × Distinct ls

names-add_wanted :
    (p : ℕ) (l : Line) (ms : List Line)
    → names p (add_wanted l ms) ≡ (names p ms || (l.product_id == p))
unfolding add_wanted
names-add_wanted p l [] = ground arith
names-add_wanted p l (m ∷ ms) = ground (arith, names-add_wanted p l ms)

add_wanted-Distinct : (l : Line) (ms : List Line) → Distinct ms → Distinct (add_wanted l ms)
unfolding add_wanted
add_wanted-Distinct l [] h = (refl, tt)
add_wanted-Distinct l (m ∷ ms) h = elim (Bool-cases (m.product_id == l.product_id)) [
  | inl e ↦ rw e h
  | inr e ↦
      rw e (ground (arith, names-add_wanted m.product_id l ms, h.0), add_wanted-Distinct l ms h.1)
]

pub sum_lines-Distinct : (ms ls : List Line) → Distinct ms → Distinct (sum_lines ms ls)
unfolding sum_lines
sum_lines-Distinct ms [] h = h
sum_lines-Distinct ms (l ∷ ls) h =
    sum_lines-Distinct (add_wanted l ms) ls (add_wanted-Distinct l ms h)

asked-add_wanted :
    (p : ℕ) (l : Line) (ms : List Line)
    → sum_by (asked_of p) (add_wanted l ms) ≡ asked_of p l + sum_by (asked_of p) ms
unfolding add_wanted
asked-add_wanted p l [] = refl
asked-add_wanted p l (m ∷ ms) = ground (arith, asked-add_wanted p l ms)

pub asked-sum_lines :
    (p : ℕ) (ms ls : List Line)
    → sum_by (asked_of p) (sum_lines ms ls) ≡ sum_by (asked_of p) ms + sum_by (asked_of p) ls
unfolding sum_lines
asked-sum_lines p ms [] = omega arith
asked-sum_lines p ms (l ∷ ls) =
    omega (arith, asked-sum_lines p (add_wanted l ms) ls, asked-add_wanted p l ms)

-- The rows that the lines become.
abbrev pub rows_of : ℕ → ℕ → List Line → List ReservationRow
rows_of o x ls = map (λ l. new_hold o l.product_id l.quantity x) ls

pub held_total-rows_of :
    (o x p : ℕ) (vs : List ReservationRow) (ls : List Line)
    → held_total p (vs ++ rows_of o x ls) ≡ held_total p vs + sum_by (asked_of p) ls
held_total-rows_of o x p [] [] = refl
held_total-rows_of o x p [] (l ∷ ls) = ground (arith, held_total-rows_of o x p [] ls)
held_total-rows_of o x p (v ∷ vs) ls = omega (arith, held_total-rows_of o x p vs ls)

-- No row of the order names the product.
abbrev pub Fresh : ℕ → List ReservationRow → Line → Type 0
Fresh o vs l = any (λ v. v.order_id == o && v.product_id == l.product_id) vs ≡ false

Fresh-append :
    (o x : ℕ) (l m : Line) (vs : List ReservationRow)
    → Fresh o vs m
    → (m.product_id == l.product_id) ≡ false
    → Fresh o (vs ++ new_hold o l.product_id l.quantity x ∷ []) m
Fresh-append o x l m [] h n = ground (arith, n)
Fresh-append o x l m (v ∷ vs) h n = ground (arith, h, n, Fresh-append o x l m vs)

pub All-Fresh-append :
    (o x : ℕ) (l : Line) (vs : List ReservationRow) (ls : List Line)
    → All (Fresh o vs) ls
    → names l.product_id ls ≡ false
    → All (Fresh o (vs ++ new_hold o l.product_id l.quantity x ∷ [])) ls
All-Fresh-append o x l vs [] h n = tt
All-Fresh-append o x l vs (m ∷ ms) h n = (
  Fresh-append o x l m vs h.0 (ground (arith, n)),
  All-Fresh-append o x l vs ms h.1 (ground (arith, n)),
)

pub append_assoc :
    (vs : List ReservationRow) (v : ReservationRow) (us : List ReservationRow)
    → (vs ++ v ∷ []) ++ us ≡ vs ++ v ∷ us
append_assoc [] v us = refl
append_assoc (u ∷ vs) v us = ap (λ xs. u ∷ xs) (append_assoc vs v us)

-- The order has no reservation, of any status.
abbrev pub IsNew : ℕ → Inventory → Type 0
IsNew o w = any (λ v. v.order_id == o) w.db.reservations ≡ false

pub found_for-new :
    (o : ℕ) (vs : List ReservationRow) → any (λ v. v.order_id == o) vs ≡ false → found_for o vs ≡ []
found_for-new o [] h = refl
found_for-new o (v ∷ vs) h = ground (arith, h, found_for-new o vs)

new-Fresh :
    (o : ℕ) (l : Line) (vs : List ReservationRow)
    → any (λ v. v.order_id == o) vs ≡ false
    → Fresh o vs l
new-Fresh o l [] h = refl
new-Fresh o l (v ∷ vs) h = ground (arith, h, new-Fresh o l vs)

pub All-Fresh :
    (o : ℕ) (ls : List Line) (vs : List ReservationRow)
    → any (λ v. v.order_id == o) vs ≡ false
    → All (Fresh o vs) ls
All-Fresh o [] vs h = tt
All-Fresh o (l ∷ ls) vs h = (new-Fresh o l vs h, All-Fresh o ls vs h)

-- ===== src/Inventory/Books/Recording.antt =====
-- `recordAndEvaluate` of apps/inventory-service/src/inventory/inventory.service.ts brings the ledger and the
-- alerts of a product up to date.
use ecommerce_orderflow.Prelude.{
  ℕ, ◌≡◌, inl, inr, refl, sym, ap, ◌∙◌, subst, List, [], ◌∷◌, ◌++◌, map, Bool, true, false, not,
  ◌&&◌, ◌||◌, Option, none, some, any, is_some, pos, ◌==◌, ==_iff, arith, Bool-cases, if◌then◌else◌,
}
use ecommerce_orderflow.Runtime.{◌>>=◌, pure}
use ecommerce_orderflow.Runtime.Laws.{Ensures, bind-Ensures}
use ecommerce_orderflow.Inventory.Rules.{AlertLevel, StockLevels, alert_level_for}
use ecommerce_orderflow.Inventory.Tables.{
  StockItemRow, Movement, AlertRow, resolved, is_open, Inventory,
}
use ecommerce_orderflow.Inventory.Repository.Rows.{fits_int4}
use ecommerce_orderflow.Inventory.Repository.{
  has_open_alert, has_item, insert_movement, insert_alert, resolve_alert,
}
use ecommerce_orderflow.Inventory.Service.Record.{
  Change, movement_of, levels_of, alert_of, evaluate, count_movement, record_and_evaluate,
}
use ecommerce_orderflow.Inventory.Books.{latest}

pub latest-append :
    (p : ℕ) (ms : List Movement) (m : Movement)
    → latest p (ms ++ m ∷ []) ≡ (if m.product_id == p then some m else latest p ms)
latest-append p [] m = ground arith
latest-append p (x ∷ ms) m = ground (arith, latest-append p ms m)

abbrev open_of : ℕ → List AlertRow → Bool
open_of p alerts = any (λ a. a.product_id == p && is_open a.status) alerts

open_of-append :
    (p : ℕ) (alerts : List AlertRow) (a : AlertRow)
    → open_of p (alerts ++ a ∷ []) ≡ (open_of p alerts || (a.product_id == p && is_open a.status))
open_of-append p [] a = ground arith
open_of-append p (x ∷ alerts) a = ground (arith, open_of-append p alerts a)

-- The alerts of a product after `resolveAlert`.
abbrev closed : ℕ → List AlertRow → List AlertRow
closed p alerts =
    map (λ a. if a.product_id == p && is_open a.status then record a { status = resolved } else a)
      alerts

open_of-closed :
    (k p : ℕ) (alerts : List AlertRow)
    → open_of k (closed p alerts) ≡ (if k == p then false else open_of k alerts)
open_of-closed k p [] = ground arith
open_of-closed k p (a ∷ alerts) = ground (arith, open_of-closed k p alerts)

-- The stock and the ledger are as they were, and the alerts of one product are as a level demands.
abbrev Alerted : ℕ → Bool → Inventory → Inventory → Type 0
Alerted p wanted w w' =
    (w'.db.stock_items ≡ w.db.stock_items)
    × (w'.db.stock_movements ≡ w.db.stock_movements)
    × ((k : ℕ) → has_open_alert k w'.db ≡ (if k == p then wanted else has_open_alert k w.db))

open_already :
    (k p : ℕ) (alerts : List AlertRow)
    → open_of p alerts ≡ true
    → open_of k alerts ≡ (if k == p then true else open_of k alerts)
open_already k p alerts h = elim (Bool-cases (k == p)) [
  | inl e ↦ rw e (subst (λ n. open_of n alerts ≡ true) (sym ((==_iff k p).0 e)) h)
  | inr e ↦ rw e refl
]

opened_lem :
    (k : ℕ) (a : AlertRow) (alerts : List AlertRow)
    → is_open a.status ≡ true
    → open_of k (alerts ++ a ∷ []) ≡ (if k == a.product_id then true else open_of k alerts)
opened_lem k a alerts o = open_of-append k alerts a ∙ ground (arith, o)

insert_alert-Alerted :
    (a : AlertRow) (w : Inventory)
    → is_open a.status ≡ true
    → Ensures (λ _ w'. Alerted a.product_id true w w') (insert_alert a w)
unfolding insert_alert
insert_alert-Alerted a w o =
    elim (Bool-cases (
      not (
        fits_int4 a.available && (fits_int4 (pos a.reorder_level) && fits_int4 a.suggested_qty)))) [
          | inl e ↦ rw e tt
          | inr e ↦ elim (Bool-cases (has_open_alert a.product_id w.db)) [
            | inl h ↦ rw (e, h) (refl, refl, λ k. open_already k a.product_id w.db.stock_alerts h)
            | inr h ↦ elim (Bool-cases (has_item a.product_id w.db)) [
              | inl i ↦ rw (e, h, i) (refl, refl, λ k. opened_lem k a w.db.stock_alerts o)
              | inr i ↦ rw (e, h, i) tt
            ]
          ]
        ]

evaluate-Alerted :
    (row : StockItemRow) (ls : StockLevels) (level : Option AlertLevel) (w : Inventory)
    → Ensures (λ _ w'. Alerted row.product_id (is_some level) w w') (evaluate row ls level w)
unfolding resolve_alert
evaluate-Alerted row ls none w =
    (refl, refl, λ k. open_of-closed k row.product_id w.db.stock_alerts)
evaluate-Alerted row ls (some level) w =
    bind-Ensures (λ _ w'. Alerted row.product_id true w w')
      (λ _ w'. Alerted row.product_id true w w') (insert_alert (alert_of row ls level))
      (λ opened. pure tt) w (insert_alert-Alerted (alert_of row ls level) w refl) (λ _ w' h. h)

insert_movement-appends :
    (m : Movement) (w : Inventory)
    → Ensures
        (λ _ w'.
          w' ≡ record w { db = record w.db { stock_movements = w.db.stock_movements ++ m ∷ [] } })
        (insert_movement m w)
unfolding insert_movement
insert_movement-appends m w =
    elim (Bool-cases (
      fits_int4 (pos m.quantity)
      && (fits_int4 m.on_hand_after
          && (fits_int4 m.reserved_after && has_item m.product_id w.db)))) [
            | inl e ↦ rw e refl
            | inr e ↦ rw e tt
          ]

-- What a call of `recordAndEvaluate` leaves.
abbrev pub Noted : StockItemRow → Change → Inventory → Inventory → Type 0
Noted row c w w' =
    (w'.db.stock_items ≡ w.db.stock_items)
    × (w'.db.stock_movements ≡ w.db.stock_movements ++ movement_of row c ∷ [])
    × ((k : ℕ)
        → has_open_alert k w'.db ≡ (
            if k == row.product_id
            then is_some (alert_level_for (levels_of row c))
            else has_open_alert k w.db))

pub record_and_evaluate-Noted :
    (row : StockItemRow) (c : Change) (w : Inventory)
    → Ensures (λ _ w'. Noted row c w w') (record_and_evaluate row c w)
unfolding record_and_evaluate
record_and_evaluate-Noted row c w =
    let ls = levels_of row c in
    let level = alert_level_for ls in
    let ending = evaluate row ls level >>= λ _. pure ls.counts in
    bind-Ensures
      (λ _ w'. w' ≡ record w {
        db = record w.db { stock_movements = w.db.stock_movements ++ movement_of row c ∷ [] };
      })
      (λ _ w'. Noted row c w w') (insert_movement (movement_of row c))
      (λ _. count_movement c.kind >>= λ _. ending) w (insert_movement-appends (movement_of row c) w)
      λ _ w₁ h.
        let w₂ = record w₁ {
          metrics = record w₁.metrics { movements = c.kind ∷ w₁.metrics.movements };
        } in
        bind-Ensures (λ _ w'. Alerted row.product_id (is_some level) w₂ w')
          (λ _ w'. Noted row c w w') (evaluate row ls level) (λ _. pure ls.counts) w₂
          (evaluate-Alerted row ls level w₂)
          (λ _ w₃ k. (
            k.0 ∙ ap (λ x. x.db.stock_items) h,
            k.1 ∙ ap (λ x. x.db.stock_movements) h,
            λ p.
                k.2 p
                ∙ ap (λ x. if p == row.product_id then is_some level else has_open_alert p x.db) h,
          ))

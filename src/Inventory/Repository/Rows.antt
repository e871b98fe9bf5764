-- ===== src/Inventory/Repository/Rows.antt =====
-- What the statements of inventory.repository.ts compute from single rows and columns: the checks of
-- hasura/migrations/inventory/1720000000010_init on `stock_items`, the range of `integer`, and the
-- clauses `where`, `distinct` and `limit`.
use ecommerce_orderflow.Prelude.{
  ℕ, zero, suc, Bool, false, ◌&&◌, not, Option, none, some, List, [], ◌∷◌, ℤ, pos, negsuc, ◌+ℤ◌,
  leb_ℤ, pos_part, ltb, leb, ◌==◌, if◌then◌else◌, filter,
}
use ecommerce_orderflow.Inventory.Tables.{StockItemRow}

-- The largest `integer`, 2^31 - 1.
abbrev pub int4_max : ℕ
int4_max = 2147483647

unfoldable pub fits_int4 : ℤ → Bool
fits_int4 z = leb_ℤ z (pos int4_max) && leb_ℤ (negsuc int4_max) z

-- `check (quantity > 0)`, in range.
unfoldable pub is_quantity : ℕ → Bool
is_quantity q = ltb 0 q && leb q int4_max

-- `on_hand >= 0`, `reserved >= 0`, `reserved <= on_hand`, in range.
abbrev pub counts_ok : ℤ → ℤ → Bool
counts_ok on_hand reserved =
    leb_ℤ (pos 0) reserved && (leb_ℤ reserved on_hand && leb_ℤ on_hand (pos int4_max))

abbrev pub store_row : StockItemRow → ℤ → ℤ → Option StockItemRow
store_row r on_hand reserved =
    if counts_ok on_hand reserved
    then some (record r { on_hand = pos_part on_hand; reserved = pos_part reserved })
    else none

-- `reserved = reserved + $2`
unfoldable pub shift_reserved : ℤ → StockItemRow → Option StockItemRow
unfolding ◌+ℤ◌
shift_reserved delta r = store_row r (pos r.on_hand) (pos r.reserved +ℤ delta)

-- `on_hand = on_hand + $2`
unfoldable pub shift_on_hand : ℤ → StockItemRow → Option StockItemRow
unfolding ◌+ℤ◌
shift_on_hand delta r = store_row r (pos r.on_hand +ℤ delta) (pos r.reserved)

abbrev pub cons_row : Option StockItemRow → Option (List StockItemRow) → Option (List StockItemRow)
cons_row (some r) (some rs) = some (r ∷ rs)
cons_row none rs = none
cons_row (some r) none = none

-- `update stock_items … where product_id = $1`: none if a row fails its checks.
unfoldable pub update_items :
    ℕ → (StockItemRow → Option StockItemRow) → List StockItemRow → Option (List StockItemRow)
update_items p f [] = some []
update_items p f (r ∷ rs) =
    cons_row (if r.product_id == p then f r else some r) (update_items p f rs)

-- `expires_at is not null and expires_at < now()`
unfoldable pub is_expired : ℕ → Option ℕ → Bool
is_expired now none = false
is_expired now (some at) = ltb at now

unfoldable pub distinct : List ℕ → List ℕ
distinct [] = []
distinct (x ∷ xs) = x ∷ filter (λ y. not (y == x)) (distinct xs)

unfoldable pub take : ℕ → List ℕ → List ℕ
take zero xs = []
take (suc n) [] = []
take (suc n) (x ∷ xs) = x ∷ take n xs

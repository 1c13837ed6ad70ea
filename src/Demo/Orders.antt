-- ===== src/Demo/Orders.antt =====
-- demo/app/db.go: the statements, with the counter of their outcomes.
pub mod Silent
use statgate.Prelude.{
  ℤ, pos, Bool, true, false, String, Option, none, some, List, [], ◌∷◌, ◌++◌, ◌⊎◌, inl, inr, eq_ℤ,
  ltb_ℤ, if◌then◌else◌,
}
use statgate.Actions.{Error, Action, pure, fail, crash, lift, perform, attempt, ◌>>=◌, ◌>>◌}
use statgate.Demo.Calls.{
  Order, DemoCall, insert_order, select_orders, select_order, delete_order, close_rows, count_with,
  db_operations_total, count_operation, Row, no_rows, failed, row, Rows, DemoEnv, Serve, tell,
}

-- The loop over the rows: the orders that are scanned, or the first error.
abbrev pub scan_rows : List (Error ⊎ Order) → List Order → Error ⊎ List Order
scan_rows [] orders = inr orders
scan_rows (inl e ∷ rows) orders = inl e
scan_rows (inr o ∷ rows) orders = scan_rows rows (orders ++ (o ∷ []))

module _ {F : Type 0} (env : DemoEnv F) where
  after_insert : Error ⊎ Order → Serve F Order
  after_insert (inl e) = count_with db_operations_total ("create" ∷ "error" ∷ []) >> fail e
  after_insert (inr o) = count_with db_operations_total ("create" ∷ "success" ∷ []) >> pure o

  unfoldable pub create_order : String → Serve F Order
  unfolding after_insert
  create_order title = do
    answer ← attempt (perform (insert_order title) (λ h. env.inserted h title))
    after_insert answer

  -- The rows are closed on each way out; `rows.Err()` is looked at after the counting.
  after_scan : Option Error → Error ⊎ List Order → Serve F (List Order)
  after_scan iteration (inl e) =
      count_with db_operations_total ("list" ∷ "error" ∷ []) >> (tell close_rows >> fail e)
  after_scan (some e) (inr orders) =
      count_with db_operations_total ("list" ∷ "success" ∷ []) >> (tell close_rows >> fail e)
  after_scan none (inr orders) =
      count_with db_operations_total ("list" ∷ "success" ∷ []) >> (tell close_rows >> pure orders)

  -- `make([]Order, 0, limit)` panics at a negative limit, with the rows open.
  after_select : ℤ → Error ⊎ Rows → Serve F (List Order)
  after_select limit (inl e) = count_with db_operations_total ("list" ∷ "error" ∷ []) >> fail e
  after_select limit (inr rows) =
      if ltb_ℤ limit (pos 0)
      then tell close_rows >> crash
      else after_scan rows.iteration (scan_rows rows.scans [])

  unfoldable pub list_orders : ℤ → ℤ → Serve F (List Order)
  unfolding after_select after_scan
  list_orders limit offset = do
    answer ← attempt (perform (select_orders limit offset) (λ h. env.orders_at h limit offset))
    after_select limit answer

  -- `none` is the nil of an order that does not exist.
  after_row : Row → Serve F (Option Order)
  after_row no_rows = count_with db_operations_total ("get" ∷ "not_found" ∷ []) >> pure none
  after_row (failed e) = count_with db_operations_total ("get" ∷ "error" ∷ []) >> fail e
  after_row (row o) = count_with db_operations_total ("get" ∷ "success" ∷ []) >> pure (some o)

  unfoldable pub get_order : String → Serve F (Option Order)
  unfolding after_row
  get_order id = do
    answer ← perform (select_order id) (λ h. inr (env.order_at h id))
    after_row answer

  -- The number of rows that were deleted, which is 0 where it is not known.
  after_delete : Error ⊎ ℤ → Serve F Bool
  after_delete (inl e) = count_with db_operations_total ("delete" ∷ "error" ∷ []) >> fail e
  after_delete (inr n) =
      if eq_ℤ n (pos 0)
      then count_with db_operations_total ("delete" ∷ "not_found" ∷ []) >> pure false
      else count_with db_operations_total ("delete" ∷ "success" ∷ []) >> pure true

  unfoldable pub remove_order : String → Serve F Bool
  unfolding after_delete
  remove_order id = do
    answer ← attempt (perform (delete_order id) (λ h. env.deleted h id))
    after_delete answer

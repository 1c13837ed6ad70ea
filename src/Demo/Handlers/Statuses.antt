-- ===== src/Demo/Handlers/Statuses.antt =====
-- What each handler answers, and what it counts.
use mathlib.Core.List.{append_assoc, append-nil}
use statgate.Prelude.{
  ℤ, pos, true, false, String, Option, none, some, List, [], ◌∷◌, ◌++◌, map, ap, sym, ◌∙◌, ◌⊎◌, inl,
  inr, ◌≡◌, refl, eq_ℤ, ltb_ℤ, if◌then◌else◌, str_eq, Bool-cases,
}
use statgate.Float64.{Float64}
use statgate.Actions.{Error, ok, pure, fail, perform, attempt, ◌>>=◌}
use statgate.Demo.Calls.{
  Order, Body, error_body, order_body, orders_body, DemoCall, insert_order, select_orders,
  select_order, delete_order, close_rows, count_operation, set_header, write_header, write_body,
  read_clock, Row, no_rows, failed, row, Rows, Request, DemoEnv,
}
use statgate.Demo.Injector.{current_rate}
use statgate.Demo.Orders.{create_order, list_orders, get_order, remove_order, scan_rows}
use statgate.Demo.Pagination.{
  Page, parse_list_pagination, parse_list_pagination-IsPage, IsPage-not_below,
}
use statgate.Demo.Handlers.{
  App, handle_create_order, handle_list_orders, handle_get_order, handle_delete_order,
}

-- A JSON answer, as it stands in the history.
abbrev pub answered : {F : Type 0} → ℤ → Body → List (DemoCall F) → List (DemoCall F)
answered status body h =
    write_body body ∷ write_header status ∷ set_header "Content-Type" "application/json" ∷ h

-- The label of an operation's counter, the status and the body.
pub record Outcome : Type 0 where
  pub label : String
  pub status : ℤ
  pub body : Body

-- What the scanning of the rows comes to: the orders of all of them, or the error of the first that
-- fails.
abbrev pub IsScanned : List (Error ⊎ Order) → Error ⊎ List Order → Type 0
IsScanned scans (inr orders) = scans ≡ map inr orders
IsScanned scans (inl e) =
    (orders : List Order) × (rest : List (Error ⊎ Order)) × (scans
      ≡ map inr orders ++ (inl e ∷ rest))

-- The same, for a loop that has some orders already.
abbrev ScannedOn : List Order → List (Error ⊎ Order) → Error ⊎ List Order → Type 0
ScannedOn before scans (inr orders) =
    (more : List Order) × (orders ≡ before ++ more) × (scans ≡ map inr more)
ScannedOn before scans (inl e) = IsScanned scans (inl e)

scanned-row :
    (before : List Order) (o : Order) (rows : List (Error ⊎ Order)) (r : Error ⊎ List Order)
    → ScannedOn (before ++ (o ∷ [])) rows r
    → ScannedOn before (inr o ∷ rows) r
scanned-row before o rows (inl e) (orders, rest, s) = (o ∷ orders, rest, ap (λ l. inr o ∷ l) s)
scanned-row before o rows (inr orders) (more, s, t) =
    (o ∷ more, s ∙ append_assoc before (o ∷ []) more, ap (λ l. inr o ∷ l) t)

scan_rows-ScannedOn :
    (scans : List (Error ⊎ Order)) (before : List Order)
    → ScannedOn before scans (scan_rows scans before)
scan_rows-ScannedOn [] before = ([], sym (append-nil before), refl)
scan_rows-ScannedOn (inl e ∷ rows) before = ([], rows, refl)
scan_rows-ScannedOn (inr o ∷ rows) before =
    scanned-row before o rows (scan_rows rows (before ++ (o ∷ [])))
      (scan_rows-ScannedOn rows (before ++ (o ∷ [])))

ScannedOn-none :
    (scans : List (Error ⊎ Order)) (r : Error ⊎ List Order)
    → ScannedOn [] scans r
    → IsScanned scans r
ScannedOn-none scans (inl e) s = s
ScannedOn-none scans (inr orders) (more, s, t) = t ∙ ap (map inr) (sym s)

scan_rows-IsScanned : (scans : List (Error ⊎ Order)) → IsScanned scans (scan_rows scans [])
scan_rows-IsScanned scans = ScannedOn-none scans _ (scan_rows-ScannedOn scans [])

module _ {F : Type 0} ⦃fl : Float64 F⦄ (env : DemoEnv F) (app : App F) where
  abbrev pub get_outcome : Row → Outcome
  get_outcome no_rows = record {
    label = "not_found";
    status = pos 404;
    body = error_body "not found";
  }
  get_outcome (failed e) = record {
    label = "error";
    status = pos 500;
    body = error_body (env.error_text e);
  }
  get_outcome (row o) = record { label = "success"; status = pos 200; body = order_body o }

  get_answer_of :
      (r : Request) (h : List (DemoCall F)) (answer : Row)
      → app.has_db ≡ true
      → env.order_at h (r.path_value "id") ≡ answer
      → handle_get_order env app r h ≡ (
        ok tt,
        answered (get_outcome answer).status (get_outcome answer).body (
            count_operation "get" (get_outcome answer).label
            ∷ select_order (r.path_value "id")
            ∷ h),
      )
  unfolding handle_get_order get_order perform attempt pure fail ◌>>=◌
  get_answer_of r h no_rows d e = rw (d, e) refl
  get_answer_of r h (failed e') d e = rw (d, e) refl
  get_answer_of r h (row o) d e = rw (d, e) refl

  -- With a database, `GET /orders/{id}` makes one query, counts its outcome, and answers 200 with the
  -- order, 404 if there is none, or 500 with the error.
  pub handle_get_order_answer :
      (r : Request) (h : List (DemoCall F))
      → app.has_db ≡ true
      → handle_get_order env app r h ≡ (
          let x = get_outcome (env.order_at h (r.path_value "id")) in
          (
            ok tt,
            answered x.status x.body
                (count_operation "get" x.label ∷ select_order (r.path_value "id") ∷ h),
          ))
  handle_get_order_answer r h d = get_answer_of r h (env.order_at h (r.path_value "id")) d refl

  -- What follows the deletion, by its answer: nothing was deleted, or something, or it failed.
  abbrev pub after_deletion : Error ⊎ ℤ → List (DemoCall F) → List (DemoCall F)
  after_deletion (inl e) h =
      answered (pos 500) (error_body (env.error_text e)) (count_operation "delete" "error" ∷ h)
  after_deletion (inr n) h =
      if eq_ℤ n (pos 0)
      then answered (pos 404) (error_body "not found") (count_operation "delete" "not_found" ∷ h)
      else write_header (pos 204) ∷ count_operation "delete" "success" ∷ h

  delete_answer_of :
      (r : Request) (h : List (DemoCall F)) (answer : Error ⊎ ℤ)
      → app.has_db ≡ true
      → env.deleted h (r.path_value "id") ≡ answer
      → handle_delete_order env app r h
        ≡ (ok tt, after_deletion answer (delete_order (r.path_value "id") ∷ h))
  unfolding handle_delete_order remove_order perform attempt pure fail ◌>>=◌
  delete_answer_of r h (inl e') d e = rw (d, e) refl
  delete_answer_of r h (inr n) d e = elim (Bool-cases (eq_ℤ n (pos 0))) [
    | inl none_there ↦ rw (d, e, none_there) refl
    | inr some_there ↦ rw (d, e, some_there) refl
  ]

  -- With a database, `DELETE /orders/{id}` makes one statement, counts its outcome, and answers 204
  -- without a body, 404 if nothing was deleted, or 500 with the error.
  pub handle_delete_order_answer :
      (r : Request) (h : List (DemoCall F))
      → app.has_db ≡ true
      → handle_delete_order env app r h ≡ (
        ok tt,
        after_deletion (env.deleted h (r.path_value "id")) (delete_order (r.path_value "id") ∷ h),
      )
  handle_delete_order_answer r h d = delete_answer_of r h (env.deleted h (r.path_value "id")) d refl

  -- What follows the query for a page, by how the iteration ended and what was scanned.
  abbrev pub after_rows : Option Error → Error ⊎ List Order → List (DemoCall F) → List (DemoCall F)
  after_rows iteration (inl e) h =
      answered (pos 500) (error_body (env.error_text e))
        (close_rows ∷ count_operation "list" "error" ∷ h)
  after_rows (some e) (inr orders) h =
      answered (pos 500) (error_body (env.error_text e))
        (close_rows ∷ count_operation "list" "success" ∷ h)
  after_rows none (inr orders) h =
      answered (pos 200) (orders_body orders) (close_rows ∷ count_operation "list" "success" ∷ h)

  after_scan_answer :
      (r : Request) (h : List (DemoCall F)) (p : Page) (rows : Rows) (iteration : Option Error)
      (scanned : Error ⊎ List Order)
      → app.has_db ≡ true
      → parse_list_pagination env.atoi r.query_param ≡ inr p
      → env.orders_at h p.limit p.offset ≡ inr rows
      → ltb_ℤ p.limit (pos 0) ≡ false
      → rows.iteration ≡ iteration
      → scan_rows rows.scans [] ≡ scanned
      → handle_list_orders env app r h
        ≡ (ok tt, after_rows iteration scanned (select_orders p.limit p.offset ∷ h))
  unfolding handle_list_orders list_orders perform attempt pure fail ◌>>=◌
  after_scan_answer r h p rows iteration (inl e') d page q l i s = rw (page, d, q, l, i, s) refl
  after_scan_answer r h p rows none (inr orders) d page q l i s = rw (page, d, q, l, i, s) refl
  after_scan_answer r h p rows (some e) (inr orders) d page q l i s = rw (page, d, q, l, i, s) refl

  -- With a database that answers the query of a page, `GET /orders` closes the rows, and answers 200
  -- with the orders of all rows if each row was scanned and the iteration ended without an error, and
  -- else 500 with the error of the first row that was not scanned, or with that of the iteration; an
  -- error that ends the iteration is counted as a success all the same.
  pub handle_list_orders_answer :
      (r : Request) (h : List (DemoCall F)) (p : Page) (rows : Rows)
      → app.has_db ≡ true
      → parse_list_pagination env.atoi r.query_param ≡ inr p
      → env.orders_at h p.limit p.offset ≡ inr rows
      → (scanned : Error ⊎ List Order) × IsScanned rows.scans scanned
        × (handle_list_orders env app r h
            ≡ (ok tt, after_rows rows.iteration scanned (select_orders p.limit p.offset ∷ h)))
  handle_list_orders_answer r h p rows d page q = (
    scan_rows rows.scans [],
    scan_rows-IsScanned rows.scans,
    after_scan_answer r h p rows rows.iteration (scan_rows rows.scans []) d page q
        (IsPage-not_below (parse_list_pagination-IsPage env.atoi r.query_param p page)) refl refl,
  )

  -- What follows an insertion, by its answer.
  abbrev pub after_insertion : Error ⊎ Order → List (DemoCall F) → List (DemoCall F)
  after_insertion (inl e) h =
      answered (pos 500) (error_body (env.error_text e)) (count_operation "create" "error" ∷ h)
  after_insertion (inr o) h =
      answered (pos 201) (order_body o) (count_operation "create" "success" ∷ h)

  create_answer_of :
      (r : Request) (h : List (DemoCall F)) (title : String) (answer : Error ⊎ Order)
      → app.has_db ≡ true
      → fl.lt (fl.of_int (pos 0)) (current_rate env app.injector (env.now_at h)) ≡ false
      → env.decode_title r.body ≡ inr title
      → str_eq title "" ≡ false
      → env.inserted (read_clock ∷ h) title ≡ answer
      → handle_create_order env app r h
        ≡ (ok tt, after_insertion answer (insert_order title ∷ read_clock ∷ h))
  unfolding handle_create_order create_order perform attempt pure fail ◌>>=◌
  create_answer_of r h title (inl e') d rate t n e = rw (rate, t, n, d, e) refl
  create_answer_of r h title (inr o) d rate t n e = rw (rate, t, n, d, e) refl

  -- With a database and a rate that is not above 0, `POST /orders` with a title inserts it once, counts
  -- the outcome, and answers 201 with the order or 500 with the error.
  pub handle_create_order_answer :
      (r : Request) (h : List (DemoCall F)) (title : String)
      → app.has_db ≡ true
      → fl.lt (fl.of_int (pos 0)) (current_rate env app.injector (env.now_at h)) ≡ false
      → env.decode_title r.body ≡ inr title
      → str_eq title "" ≡ false
      → handle_create_order env app r h ≡ (
        ok tt,
        after_insertion (env.inserted (read_clock ∷ h) title) (insert_order title ∷ read_clock ∷ h),
      )
  handle_create_order_answer r h title d rate t n =
      create_answer_of r h title (env.inserted (read_clock ∷ h) title) d rate t n refl

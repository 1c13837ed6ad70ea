-- ===== src/Demo/Handlers.antt =====
-- demo/app/handlers.go: the HTTP handlers.
pub mod Once
pub mod Statuses
use statgate.Prelude.{
  ℤ, pos, Bool, true, false, String, Option, none, some, List, [], ◌∷◌, ◌⊎◌, inl, inr, ◌+ℤ◌, ◌*ℤ◌,
  wrap64, str_eq, if◌then◌else◌,
}
use statgate.Float64.{Float64}
use statgate.Actions.{Error, failure, Action, pure, perform, lift, attempt, ◌>>=◌, ◌>>◌}
use statgate.Demo.Calls.{
  Order, Body, error_body, order_body, orders_body, text_body, DemoCall, read_clock, random_float,
  random_int, sleep, set_header, write_header, write_body, Request, DemoEnv, Serve, tell,
}
use statgate.Demo.Injector.{Injector, current_rate}
use statgate.Demo.Pagination.{Page, parse_list_pagination}
use statgate.Demo.Orders.{create_order, list_orders, get_order, remove_order}

-- `App`; the database is there or nil.
pub record App (F : Type 0) : Type 0 where
  pub has_db : Bool
  pub version : String
  pub hostname : String
  pub injector : Injector F

module _ {F : Type 0} where
  -- `writeJSON`
  pub write_json : ℤ → Body → Serve F (Unit {0})
  write_json status body = do
    tell (set_header "Content-Type" "application/json")
    tell (write_header status)
    tell (write_body body)

  no_database : Serve F (Unit {0})
  unfolding write_json
  no_database = write_json (pos 503) (error_body "database not configured")

module _ {F : Type 0} ⦃fl : Float64 F⦄ (env : DemoEnv F) (app : App F) where
  open fl use {of_int, lt}

  server_error : Error → Serve F (Unit {0})
  unfolding write_json
  server_error e = write_json (pos 500) (error_body (env.error_text e))

  -- The number is drawn only at a rate above 0.
  chance : F → Serve F Bool
  chance rate =
      if lt (of_int (pos 0)) rate
      then (do x ← perform random_float (λ h. inr (env.random_at h)); pure (lt x rate))
      else pure false

  simulated_failure : Serve F (Unit {0})
  unfolding write_json
  simulated_failure = do
    extra ← perform (random_int (pos 800)) (λ h. inr (env.random_below h (pos 800)))
    tell (sleep (wrap64 (wrap64 (pos 200 +ℤ extra) *ℤ pos 1000000)))
    write_json (pos 500) (error_body "simulated failure")

  created : Error ⊎ Order → Serve F (Unit {0})
  unfolding write_json server_error
  created (inl e) = server_error e
  created (inr order) = write_json (pos 201) (order_body order)

  title_required : Serve F (Unit {0})
  unfolding write_json
  title_required = write_json (pos 400) (error_body "title is required")

  create_titled : Error ⊎ String → Serve F (Unit {0})
  unfolding created title_required no_database
  create_titled (inl e) = title_required
  create_titled (inr title) =
      if str_eq title ""
      then title_required
      else if app.has_db
      then (do answer ← attempt (create_order env title); created answer)
      else no_database

  unfoldable pub handle_create_order : Request → Serve F (Unit {0})
  unfolding chance simulated_failure create_titled
  handle_create_order r = do
    reading ← perform read_clock (λ h. inr (env.now_at h))
    hit ← chance (current_rate env app.injector reading)
    if hit then simulated_failure else create_titled (env.decode_title r.body)

  listed : Error ⊎ List Order → Serve F (Unit {0})
  unfolding write_json server_error
  listed (inl e) = server_error e
  listed (inr orders) = write_json (pos 200) (orders_body orders)

  list_page : Error ⊎ Page → Serve F (Unit {0})
  unfolding write_json listed
  list_page (inl e) = write_json (pos 400) (error_body (env.error_text e))
  list_page (inr page) =
      if app.has_db
      then (do answer ← attempt (list_orders env page.limit page.offset); listed answer)
      else write_json (pos 200) (orders_body [])

  unfoldable pub handle_list_orders : Request → Serve F (Unit {0})
  unfolding list_page
  handle_list_orders r = list_page (parse_list_pagination env.atoi r.query_param)

  not_found_json : Serve F (Unit {0})
  unfolding write_json
  not_found_json = write_json (pos 404) (error_body "not found")

  gotten : Error ⊎ Option Order → Serve F (Unit {0})
  unfolding write_json server_error not_found_json
  gotten (inl e) = server_error e
  gotten (inr none) = not_found_json
  gotten (inr (some order)) = write_json (pos 200) (order_body order)

  unfoldable pub handle_get_order : Request → Serve F (Unit {0})
  unfolding gotten no_database
  handle_get_order r =
      if app.has_db
      then (do answer ← attempt (get_order env (r.path_value "id")); gotten answer)
      else no_database

  removed : Error ⊎ Bool → Serve F (Unit {0})
  unfolding server_error not_found_json
  removed (inl e) = server_error e
  removed (inr found) = if found then tell (write_header (pos 204)) else not_found_json

  unfoldable pub handle_delete_order : Request → Serve F (Unit {0})
  unfolding removed no_database
  handle_delete_order r =
      if app.has_db
      then (do answer ← attempt (remove_order env (r.path_value "id")); removed answer)
      else no_database

unfoldable pub handle_healthz : {F : Type 0} → Serve F (Unit {0})
handle_healthz = tell (write_header (pos 200)) >> tell (write_body (text_body "ok"))

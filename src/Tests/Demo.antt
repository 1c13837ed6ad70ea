-- ===== src/Tests/Demo.antt =====
-- The theorems on the demo application, on a concrete database.
use statgate.Prelude.{
  ◌⊎◌, List, ℕ, ℤ, pos, [], ◌∷◌, ◌≡◌, inr, false, some, refl, arith, str_eq, if◌then◌else◌, ◌+ℤ◌,
  ◌-ℤ◌, ◌*ℤ◌, saturate64, show_ℤ,
}
use statgate.Actions.{Error, wrap, ok, err, perform, pure, ◌>>=◌}
use statgate.Actions.Count.{total}
use statgate.Demo.Calls.{
  Order, error_body, orders_body, order_body, listen, read_clock, count_operation, count_request,
  observe_duration, select_order, select_orders, insert_order, delete_order,
}
use statgate.Demo.Injector.{get_env, elapsed_seconds, current_rate}
use statgate.Demo.Injector.Rates.{OrdersUnits, IsRate, current_rate-IsRate}
use statgate.Demo.Pagination.{
  Page, IsPage, parse_list_pagination, parse_list_pagination-IsPage, parse_list_pagination-show,
}
use statgate.Demo.Handlers.{
  App, handle_create_order, handle_list_orders, handle_get_order, handle_delete_order,
}
use statgate.Demo.Handlers.Once.{AnswersOnce, handlers-AnswersOnce}
use statgate.Demo.Handlers.Statuses.{
  answered, IsScanned, after_rows, after_deletion, after_insertion, handle_delete_order_answer,
  handle_list_orders_answer, handle_create_order_answer,
}
use statgate.Demo.Server.{start_app, run_app, server_closed, signalled, address}
use statgate.Demo.Server.Shutdown.{ending, run_app_ends}
use statgate.Demo.Server.Detached.{detached, start_app_detached}
use statgate.Demo.Startup.{new_db}
use statgate.Demo.Startup.Retries.{is_ping, IsReadyAfter, new_db_in_time, new_db_too_late}
use statgate.Demo.Middleware.{metrics_middleware, normalize_path}
use statgate.Demo.Middleware.Served.{served_get_order}
use statgate.Tests.Sample.{integer_floats}
use statgate.Tests.Database.{
  demo_order, refused_at, reset, number_of, demo_env, env, ramped, injector, app, request,
}

-- In the spike, and behind the ramp.
spike_rate_example : current_rate env injector (pos 42) ≡ pos 100
unfolding current_rate saturate64 ◌-ℤ◌ ◌+ℤ◌
spike_rate_example = refl

late_rate_example : current_rate env injector (pos 50) ≡ pos 8
unfolding current_rate saturate64 ◌-ℤ◌ ◌+ℤ◌ ◌*ℤ◌
late_rate_example = refl

clamped_limit_example :
    parse_list_pagination number_of (λ key. if str_eq key "limit" then "500" else "")
    ≡ inr (record { limit = pos 200; offset = pos 0 })
unfolding parse_list_pagination
clamped_limit_example = refl

abbrev units : OrdersUnits integer_floats
units = record { zero_zero = refl; one_zero = refl; one_one = refl; le_zero = refl }

IsRate-in_spike :
    IsRate units env ramped
      (elapsed_seconds env injector (pos 42))
      (current_rate env injector (pos 42))
IsRate-in_spike = current_rate-IsRate units env injector (pos 42)

abbrev page : Page
page = record { limit = pos 20; offset = pos 0 }

page-IsPage : IsPage page
page-IsPage = record {
  limit_from = ground arith;
  limit_to = ground arith;
  offset_from = ground arith;
}

page_parsed : parse_list_pagination number_of (request "GET").query_param ≡ inr page
unfolding parse_list_pagination
page_parsed = refl

parse_list_pagination-IsPage_example : IsPage page
parse_list_pagination-IsPage_example =
    parse_list_pagination-IsPage number_of (request "GET").query_param page page_parsed

parse_list_pagination-show_example :
    parse_list_pagination number_of (request "GET").query_param ≡ inr page
unfolding show_ℤ
parse_list_pagination-show_example =
    parse_list_pagination-show number_of (request "GET").query_param page page-IsPage refl refl refl
      refl

handlers-AnswersOnce_example :
    AnswersOnce (handle_create_order env app (request "POST"))
    × AnswersOnce (handle_list_orders env app (request "POST"))
    × AnswersOnce (handle_get_order env app (request "POST"))
    × AnswersOnce (handle_delete_order env app (request "POST"))
handlers-AnswersOnce_example = handlers-AnswersOnce env app (request "POST")

deletes_one :
    handle_delete_order env app (request "DELETE") []
    ≡ (ok tt, after_deletion env app (inr (pos 1)) (delete_order "7" ∷ []))
deletes_one = handle_delete_order_answer env app (request "DELETE") [] refl

-- The connection is lost after the first row.
handle_list_orders_answer_example :
    (scanned : Error ⊎ List Order) × IsScanned (inr demo_order ∷ []) scanned
    × (handle_list_orders env app (request "GET") []
        ≡ (ok tt, after_rows env app (some reset) scanned (select_orders (pos 20) (pos 0) ∷ [])))
handle_list_orders_answer_example =
    handle_list_orders_answer env app (request "GET") [] page _ refl page_parsed refl

creates_one :
    handle_create_order env app (request "POST") []
    ≡ (ok tt, after_insertion env app (inr demo_order) (insert_order "pen" ∷ read_clock ∷ []))
unfolding current_rate saturate64 ◌-ℤ◌ ◌+ℤ◌ ◌*ℤ◌
creates_one = handle_create_order_answer env app (request "POST") [] "pen" refl refl refl refl

ready : (n : ℕ) → IsReadyAfter (demo_env n) "dsn" n refused_at
ready n = record { opens = λ h. refl; answers = λ h. refl }

new_db_in_time_example :
    ((new_db (demo_env 3) "dsn" []).0 ≡ ok tt)
    × (total is_ping (new_db (demo_env 3) "dsn" []).1 ≡ 4)
new_db_in_time_example =
    new_db_in_time (demo_env 3) "dsn" 3 refused_at (ready 3) [] (omega arith) (λ h. refl) refl

new_db_too_late_example :
    ((new_db (demo_env 6) "dsn" []).0 ≡ err (wrap "db ping after retries" (refused_at 4)))
    × (total is_ping (new_db (demo_env 6) "dsn" []).1 ≡ 5)
new_db_too_late_example =
    new_db_too_late (demo_env 6) "dsn" 6 refused_at (ready 6) [] (omega arith) refl

serves_one : metrics_middleware env "v2" (handle_get_order env app) (request "GET") [] ≡ (
  ok tt,
  observe_duration "GET" (normalize_path env "/orders/7") "v2" (pos 0)
      ∷ count_request "GET" (normalize_path env "/orders/7") "200" "v2"
      ∷ read_clock
      ∷ answered
          (pos 200)
          (order_body demo_order)
          (count_operation "get" "success" ∷ select_order "7" ∷ read_clock ∷ []),
)
unfolding saturate64 ◌-ℤ◌ show_ℤ
serves_one = served_get_order env app (request "GET") [] refl

starts_alone :
    (started : App ℤ) × (start_app env [] ≡ (ok started, read_clock ∷ []))
    × (handle_get_order env started (request "GET") []
        ≡ (ok tt, answered (pos 503) (error_body "database not configured") []))
    × (handle_delete_order env started (request "GET") []
        ≡ (ok tt, answered (pos 503) (error_body "database not configured") []))
    × (handle_list_orders env started (request "GET") []
        ≡ (ok tt, answered (pos 200) (orders_body []) []))
starts_alone = start_app_detached env [] [] (request "GET") page refl page_parsed

run_app_ends_example :
    run_app env (server_closed ∷ signalled ∷ []) []
    ≡ ending false (some signalled) (inr tt) (listen address ∷ read_clock ∷ [])
unfolding start_app get_env perform pure ◌>>=◌
run_app_ends_example =
    run_app_ends env (server_closed ∷ signalled ∷ []) [] (read_clock ∷ []) (detached env []) refl

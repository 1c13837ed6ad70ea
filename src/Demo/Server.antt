-- ===== src/Demo/Server.antt =====
-- demo/app/main.go: how the application starts, what its server handles, and how it ends.
pub mod Detached
pub mod Shutdown
use statgate.Prelude.{
  ℕ, ℤ, pos, Bool, true, false, String, Option, none, some, List, [], ◌∷◌, ◌⊎◌, inl, inr, str_eq,
  if◌then◌else◌,
}
use statgate.Float64.{Float64}
use statgate.Actions.{Error, pure, perform, attempt, wrapping, ◌>>=◌, ◌>>◌}
use statgate.Demo.Calls.{
  Request, DemoEnv, Serve, tell, read_clock, listen, shut_down, close_connection,
}
use statgate.Demo.Injector.{new_injector, load_injector_config, get_env}
use statgate.Demo.Startup.{new_db}
use statgate.Demo.Handlers.{
  App, handle_create_order, handle_list_orders, handle_get_order, handle_delete_order,
  handle_healthz,
}
use statgate.Demo.Middleware.{metrics_middleware}

-- A handler, and the patterns that handlers are registered under.
abbrev pub Handler : Type 0 → Type 0
Handler F = Request → Serve F (Unit {0})

abbrev pub Routes : Type 0 → Type 0
Routes F = List (String × Handler F)

-- What happens while `main` waits: `ListenAndServe` returns, with `ErrServerClosed` or another error, or a
-- signal to quit arrives.
pub data ServerEvent : Type 0 where
  listen_failed : Error → ServerEvent
  server_closed signalled : ServerEvent

abbrev pub address : String
address = ":8080"

abbrev pub grace : ℤ
grace = pos 10000000000

module _ {F : Type 0} ⦃fl : Float64 F⦄ (env : DemoEnv F) where
  -- An error ends the program.
  connected_db : String → Serve F Bool
  connected_db url =
      if str_eq url "" then pure false else (wrapping "db init" (new_db env url) >> pure true)

  unfoldable pub start_app : Serve F (App F)
  unfolding connected_db
  start_app = do
    reading ← perform read_clock (λ h. inr (env.now_at h))
    has_db ← connected_db (get_env env "DATABASE_URL" "")
    pure (record {
      has_db = has_db;
      version = get_env env "APP_VERSION" "unknown";
      hostname = env.hostname;
      injector = new_injector reading (load_injector_config env);
    })

  -- The metrics' handler is a library's.
  abbrev pub routes : Handler F → App F → Routes F
  routes metrics app =
      ("POST /orders", handle_create_order env app)
      ∷ ("GET /orders", handle_list_orders env app)
      ∷ ("GET /orders/{id}", handle_get_order env app)
      ∷ ("DELETE /orders/{id}", handle_delete_order env app)
      ∷ ("GET /healthz", λ r. handle_healthz)
      ∷ ("GET /metrics", metrics)
      ∷ []

  -- Over the router of `net/http`.
  unfoldable pub handler : (Routes F → Handler F) → Handler F → App F → Handler F
  handler mux metrics app = metrics_middleware env app.version (mux (routes metrics app))

  -- The deferred `Close`.
  close_db : Bool → Serve F (Unit {0})
  close_db has_db = if has_db then tell close_connection else pure tt

  -- `log.Fatalf` exits with 1 and skips the deferred calls.
  after_shut_down : App F → Error ⊎ Unit {0} → Serve F (Option ℕ)
  unfolding close_db
  after_shut_down app (inl e) = pure (some 1)
  after_shut_down app (inr _) = close_db app.has_db >> pure (some 0)

  -- The exit code after the events, and `none` while the server runs on.
  wait_for_quit : App F → List ServerEvent → Serve F (Option ℕ)
  unfolding after_shut_down
  wait_for_quit app [] = pure none
  wait_for_quit app (listen_failed e ∷ events) = pure (some 1)
  wait_for_quit app (server_closed ∷ events) = wait_for_quit app events
  wait_for_quit app (signalled ∷ events) = do
    answer ← attempt (perform (shut_down grace) (λ h. env.shut_down_at h))
    after_shut_down app answer

  run_server : List ServerEvent → Error ⊎ App F → Serve F (Option ℕ)
  unfolding wait_for_quit
  run_server events (inl e) = pure (some 1)
  run_server events (inr app) = tell (listen address) >> wait_for_quit app events

  -- `main` of the application.
  unfoldable pub run_app : List ServerEvent → Serve F (Option ℕ)
  unfolding run_server
  run_app events = do started ← attempt start_app; run_server events started

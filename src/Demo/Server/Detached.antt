-- ===== src/Demo/Server/Detached.antt =====
-- The application without a database.
use statgate.Prelude.{pos, false, List, [], ◌∷◌, ◌≡◌, refl, inr}
use statgate.Float64.{Float64}
use statgate.Actions.{ok, pure, perform, ◌>>=◌}
use statgate.Demo.Calls.{DemoCall, DemoEnv, Request, read_clock, error_body, orders_body}
use statgate.Demo.Injector.{new_injector, load_injector_config, get_env}
use statgate.Demo.Pagination.{Page, parse_list_pagination}
use statgate.Demo.Handlers.{App, handle_list_orders, handle_get_order, handle_delete_order}
use statgate.Demo.Handlers.Statuses.{answered}
use statgate.Demo.Server.{start_app}

module _ {F : Type 0} ⦃fl : Float64 F⦄ (env : DemoEnv F) where
  abbrev unconfigured : List (DemoCall F) → List (DemoCall F)
  unconfigured h = answered (pos 503) (error_body "database not configured") h

  abbrev pub detached : List (DemoCall F) → App F
  detached h = record {
    has_db = false;
    version = get_env env "APP_VERSION" "unknown";
    hostname = env.hostname;
    injector = new_injector (env.now_at h) (load_injector_config env);
  }

  -- Without a `DATABASE_URL` the application starts after a reading of the clock and no other call, and
  -- then answers 503 to a read or a deletion of an order, and 200 with no orders to each page that may be
  -- listed.
  pub start_app_detached :
      (h h' : List (DemoCall F)) (r : Request) (p : Page)
      → env.variable "DATABASE_URL" ≡ ""
      → parse_list_pagination env.atoi r.query_param ≡ inr p
      → (app : App F) × (start_app env h ≡ (ok app, read_clock ∷ h))
        × (handle_get_order env app r h' ≡ (ok tt, unconfigured h'))
        × (handle_delete_order env app r h' ≡ (ok tt, unconfigured h'))
        × (handle_list_orders env app r h' ≡ (ok tt, answered (pos 200) (orders_body []) h'))
  unfolding start_app get_env handle_get_order handle_delete_order handle_list_orders perform pure
      ◌>>=◌
  start_app_detached h h' r p no_url page = (detached h, rw no_url refl, refl, refl, rw page refl)

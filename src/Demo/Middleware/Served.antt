-- ===== src/Demo/Middleware/Served.antt =====
-- The middleware around a handler.
use statgate.Prelude.{true, List, [], ◌∷◌, ◌≡◌, ◌-ℤ◌, saturate64, show_ℤ}
use statgate.Float64.{Float64}
use statgate.Actions.{ok}
use statgate.Demo.Calls.{
  DemoCall, read_clock, select_order, count_operation, count_request, observe_duration, Request,
  DemoEnv,
}
use statgate.Demo.Handlers.{App, handle_get_order}
use statgate.Demo.Handlers.Statuses.{answered, get_outcome, handle_get_order_answer}
use statgate.Demo.Middleware.{metrics_middleware, metrics_middleware-Counts, normalize_path}

module _ {F : Type 0} ⦃fl : Float64 F⦄ (env : DemoEnv F) (app : App F) where
  -- With a database, `GET /orders/{id}` behind the middleware answers by the row that was found, and the
  -- request is counted with the status of that answer.
  pub served_get_order :
      (r : Request) (h : List (DemoCall F))
      → app.has_db ≡ true
      → let x = get_outcome env app (env.order_at (read_clock ∷ h) (r.path_value "id")) in
        let done =
          answered x.status x.body
            (count_operation "get" x.label ∷ select_order (r.path_value "id") ∷ read_clock ∷ h) in
        metrics_middleware env app.version (handle_get_order env app) r h ≡ (
          ok tt,
          observe_duration r.method
                (normalize_path env r.path)
                app.version
                (env.duration_seconds (saturate64 (env.now_at done -ℤ env.now_at h)))
              ∷ count_request r.method (normalize_path env r.path) (show_ℤ x.status) app.version
              ∷ read_clock
              ∷ done,
        )
  served_get_order r h d =
      let x = get_outcome env app (env.order_at (read_clock ∷ h) (r.path_value "id")) in
      metrics_middleware-Counts env app.version (handle_get_order env app) r h
        (answered x.status x.body
          (count_operation "get" x.label ∷ select_order (r.path_value "id") ∷ []))
        (handle_get_order_answer env app r (read_clock ∷ h) d)

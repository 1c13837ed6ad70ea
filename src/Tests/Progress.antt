-- ===== src/Tests/Progress.antt =====
-- The theorems on a cycle's work, at the demo rollout.
use statgate.Prelude.{true, none, ◌*ℤ◌, wrap64, ℤ, pos, [], ◌∷◌, ◌≡◌, refl, inl, ◌+ℤ◌, wrap32}
use statgate.Api.{CanaryRollout, running}
use statgate.Actions.{Error, ok, lift, wrap, failure, err, perform, wrapping, ◌>>=◌}
use statgate.Effects.{
  ObjectKey, update_virtual_service, write_virtual_service, get_rollout, Env, History, set_gauge,
  read_clock, update_status, canary_weight, rollout_phase, get_virtual_service,
  fetch_virtual_service,
}
use statgate.Reconciler.Progress.{
  stopped, reconcile_abort_ok, reconcile_abort_error, moved_on, wait_or_advance_over,
}
use statgate.Reconciler.{reconcile, wait_or_advance, reset_analysis, seconds, set_weights}
use statgate.VirtualService.{patch, set_virtual_service_weights}
use statgate.Tests.Sample.{Object, objects, integer_floats}
use statgate.Tests.Cluster.{demo_key, demo_rollout, demo_env}
use statgate.Prelude.{List}
use statgate.VirtualService.{http_path, route_path}
use statgate.Tests.Sample.{with_int, with_slice}
use statgate.Tests.Cluster.{demo_virtual_service, first_http, route_to}

abbrev pub last : CanaryRollout ℤ
last = demo_rollout "http://prometheus" running (pos 2) (pos 50) []

abbrev env : Env ℤ Object
env = demo_env last (pos 7) (pos 3)

abbrev to_abort : CanaryRollout ℤ
to_abort = record last { spec = record last.spec { abort = true } }

abbrev abort_env : Env ℤ Object
abort_env = demo_env to_abort (pos 7) (pos 3)

abbrev pub demo_vs_key : ObjectKey
demo_vs_key = record { namespace = "statgate-demo"; name = "demo-vs" }

abbrev stable_routes : List Object
stable_routes =
    with_int (route_to "demo-stable") (pos 100) ("weight" ∷ [])
    ∷ with_int (route_to "demo-canary") (pos 0) ("weight" ∷ [])
    ∷ []

abbrev pub stable_virtual_service : Object
stable_virtual_service =
    with_slice demo_virtual_service (with_slice first_http stable_routes route_path ∷ []) http_path

abbrev moved_back : History ℤ Object
moved_back =
    update_virtual_service stable_virtual_service
    ∷ get_virtual_service demo_vs_key
    ∷ get_rollout demo_key
    ∷ []

moves_back :
    set_weights abort_env to_abort (pos 100) (pos 0) (get_rollout demo_key ∷ [])
    ≡ (ok tt, moved_back)
unfolding set_weights set_virtual_service_weights fetch_virtual_service write_virtual_service patch
    lift perform wrapping ◌>>=◌
moves_back = refl

stops_one :
    (reconcile abort_env demo_key []).1
    ≡ update_status (stopped abort_env to_abort (pos 7))
      ∷ set_gauge canary_weight ("statgate-demo" ∷ "demo-rollout" ∷ []) (pos 0)
      ∷ set_gauge rollout_phase ("statgate-demo" ∷ "demo-rollout" ∷ []) (pos 4)
      ∷ read_clock
      ∷ moved_back
stops_one = reconcile_abort_ok abort_env demo_key [] moved_back to_abort refl refl refl moves_back

abbrev broken_abort_env : Env ℤ Object
broken_abort_env = record abort_env { virtual_service_at = λ h k. inl (failure "unavailable") }

abbrev read_only : History ℤ Object
read_only = get_virtual_service demo_vs_key ∷ get_rollout demo_key ∷ []

abbrev unavailable : Error
unavailable = wrap "get VirtualService statgate-demo/demo-vs" (failure "unavailable")

stays :
    set_weights broken_abort_env to_abort (pos 100) (pos 0) (get_rollout demo_key ∷ [])
    ≡ (err unavailable, read_only)
unfolding set_weights set_virtual_service_weights fetch_virtual_service perform wrapping ◌>>=◌
stays = refl

reconcile_abort_error_example :
    reconcile broken_abort_env demo_key [] ≡ (err (wrap "rollback weights" unavailable), read_only)
reconcile_abort_error_example =
    reconcile_abort_error broken_abort_env demo_key [] read_only to_abort unavailable refl refl refl
      stays

abbrev first_pause : CanaryRollout ℤ
first_pause = record last {
  spec = record last.spec { analysis = none };
  status = record last.status { current_step = pos 0; current_weight = pos 5 };
}

moves_on_one :
    (wait_or_advance env first_pause
      (record { weight = pos 5; pause_seconds = pos 60 })
      (pos 60000000000)
      []).1
    ≡ update_status (moved_on env first_pause (pos 7))
      ∷ set_gauge canary_weight ("statgate-demo" ∷ "demo-rollout" ∷ []) (pos 5)
      ∷ set_gauge rollout_phase ("statgate-demo" ∷ "demo-rollout" ∷ []) (pos 1)
      ∷ read_clock
      ∷ (reset_analysis env first_pause none []).1
unfolding seconds ◌*ℤ◌ wrap64 wrap32 ◌+ℤ◌
moves_on_one =
    wait_or_advance_over env first_pause (record { weight = pos 5; pause_seconds = pos 60 })
      (pos 60000000000) [] refl refl refl

-- ===== src/Tests/Patch.antt =====
-- The theorems on the VirtualService, at the demo's object.
use statgate.Prelude.{some, arith, ℤ, pos, List, [], ◌∷◌, inl, inr, ◌≡◌, refl, ◌+ℤ◌}
use statgate.Actions.{ok, err, failure}
use statgate.Effects.{Env, get_virtual_service, update_virtual_service, ObjectKey}
use statgate.VirtualService.{patch, http_path, route_path, set_virtual_service_weights}
use statgate.VirtualService.Weights.{
  IsPatched, patch-IsPatched, total_weight, total_weight_one_each,
}
use statgate.VirtualService.Writes.{
  IsMisshapen, no_route, set_virtual_service_weights_ok, set_virtual_service_weights_no_write,
}
use statgate.Api.{running}
use statgate.Tests.Sample.{
  Object, objects, integer_floats, objects-IsUnstructured, with_int, with_slice,
}
use statgate.Tests.Cluster.{demo_virtual_service, first_http, route_to, demo_rollout, demo_env}

abbrev written_routes : List Object
written_routes =
    with_int (route_to "demo-stable") (pos 95) ("weight" ∷ [])
    ∷ with_int (route_to "demo-canary") (pos 5) ("weight" ∷ [])
    ∷ []

abbrev patched : Object
patched =
    with_slice demo_virtual_service (with_slice first_http written_routes route_path ∷ []) http_path

patches :
    patch "demo" demo_virtual_service "demo-stable" (pos 95) "demo-canary" (pos 5) ≡ inr patched
unfolding patch
patches = refl

patch-IsPatched_example :
    IsPatched objects-IsUnstructured "demo-stable" "demo-canary"
      (pos 95)
      (pos 5)
      demo_virtual_service
      patched
patch-IsPatched_example =
    patch-IsPatched objects-IsUnstructured "demo-stable" "demo-canary" (pos 95) (pos 5) "demo"
      demo_virtual_service patched patches

total_weight_one_each_example :
    (first' : Object) × (routes' : List Object) × (objects.nested_slice patched http_path
      ≡ inr (some (first' ∷ [])))
    × (objects.nested_slice first' route_path ≡ inr (some routes'))
    × (total_weight objects-IsUnstructured "demo-stable" "demo-canary" routes' ≡ pos 95 +ℤ pos 5)
total_weight_one_each_example =
    total_weight_one_each objects-IsUnstructured "demo-stable" "demo-canary" (pos 95) (pos 5) "demo"
      demo_virtual_service patched first_http []
      (route_to "demo-stable" ∷ route_to "demo-canary" ∷ []) patches refl refl refl refl

abbrev vs_key : ObjectKey
vs_key = record { namespace = "statgate-demo"; name = "demo-vs" }

abbrev env : Env ℤ Object
env = demo_env (demo_rollout "" running (pos 0) (pos 5) []) (pos 7) (pos 3)

writes_weights :
    set_virtual_service_weights env "statgate-demo" "demo-vs" "demo-stable"
      (pos 95)
      "demo-canary"
      (pos 5)
      []
    ≡ (ok tt, update_virtual_service patched ∷ get_virtual_service vs_key ∷ [])
unfolding patch
writes_weights =
    set_virtual_service_weights_ok env "statgate-demo" "demo-vs" "demo-stable" (pos 95)
      "demo-canary" (pos 5) [] demo_virtual_service patched refl refl refl

-- A cluster in which the VirtualService cannot be read.
abbrev pub broken_env : Env ℤ Object
broken_env = record env { virtual_service_at = λ h k. inl (failure "unavailable") }

-- A VirtualService with one http route, which has no list of routes.
abbrev bare : Object
bare = with_slice demo_virtual_service (route_to "demo-stable" ∷ []) http_path

abbrev bare_env : Env ℤ Object
bare_env = record env { virtual_service_at = λ h k. inr bare }

bare-IsMisshapen :
    IsMisshapen "VirtualService statgate-demo/demo-vs" bare
      (failure "VirtualService statgate-demo/demo-vs: spec.http[0].route not found")
bare-IsMisshapen =
    no_route (route_to "demo-stable") [] refl refl (λ routes q. absurd (ground arith)) refl

set_virtual_service_weights_no_write_example :
    set_virtual_service_weights bare_env "statgate-demo" "demo-vs" "demo-stable"
      (pos 95)
      "demo-canary"
      (pos 5)
      []
    ≡ (
      err (failure "VirtualService statgate-demo/demo-vs: spec.http[0].route not found"),
      get_virtual_service vs_key ∷ [],
    )
set_virtual_service_weights_no_write_example =
    set_virtual_service_weights_no_write bare_env "statgate-demo" "demo-vs" "demo-stable" (pos 95)
      "demo-canary" (pos 5) [] _ (inr (bare, refl, bare-IsMisshapen))

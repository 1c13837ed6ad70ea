-- ===== src/VirtualService.antt =====
-- internal/controller/virtualservice.go: `SetVirtualServiceWeights`. The helpers of the package
-- `unstructured` that it calls are the instance `Unstructured` over the type of dynamic values.
pub mod Laws
pub mod Weights
pub mod Writes
use statgate.Prelude.{
  ℤ, Bool, String, Option, none, some, List, [], ◌∷◌, ◌⊎◌, inl, inr, ◌≡◌, if◌then◌else◌, str_eq,
  ◌+s◌,
}
use statgate.Actions.{Error, failure, lift, wrapping, ◌>>=◌, ◌>>◌, wrap_error}
use statgate.Effects.{Env, M, fetch_virtual_service, write_virtual_service}

pub record Unstructured (V : Type 0) : Type 0 where
  -- the type assertion to `map[string]interface{}`
  pub is_map : V → Bool
  -- `NestedSlice`, where `none` is "not found"
  pub nested_slice : V → List String → Error ⊎ Option (List V)
  -- `NestedString`, the zero value where it fails: the code drops the two other results
  pub nested_string : V → List String → String
  -- `SetNestedField` at an `int64`, and `SetNestedSlice`
  pub set_nested_int : V → ℤ → List String → Error ⊎ V
  pub set_nested_slice : V → List V → List String → Error ⊎ V

abbrev pub host_path : List String
host_path = "destination" ∷ "host" ∷ []

abbrev pub weight_path : List String
weight_path = "weight" ∷ []

abbrev pub route_path : List String
route_path = "route" ∷ []

abbrev pub http_path : List String
http_path = "spec" ∷ "http" ∷ []

infixl 5 ◌>=>◌
abbrev pub ◌>=>◌ : {A B : Type 0} → Error ⊎ A → (A → Error ⊎ B) → Error ⊎ B
inl e >=> f = inl e
inr a >=> f = f a

abbrev pub named : String → String → String
named ns vs_name = "VirtualService " +s ns +s "/" +s vs_name

-- `spec.http`, if there is one with a route.
abbrev pub http_routes : {V : Type 0} → String → Error ⊎ Option (List V) → Error ⊎ (V × List V)
http_routes text (inr (some (first ∷ rest))) = inr (first, rest)
http_routes text _ = inl (failure (text +s " has no spec.http routes"))

abbrev pub found_routes : {V : Type 0} → String → Error ⊎ Option (List V) → Error ⊎ List V
found_routes text (inr (some routes)) = inr routes
found_routes text _ = inl (failure (text +s ": spec.http[0].route not found"))

module _ {V : Type 0} ⦃u : Unstructured V⦄ where
  open u use {is_map, nested_slice, nested_string, set_nested_int, set_nested_slice}

  -- The two weights and the hosts that they are for.
  module _ (stable_host : String) (stable : ℤ) (canary_host : String) (canary : ℤ) where
    -- One round of the loop over `routes`; a route that is no map is skipped.
    pub set_route : V → Error ⊎ V
    set_route r =
        if is_map r
        then if str_eq (nested_string r host_path) stable_host
          then wrap_error "set stable weight" (set_nested_int r stable weight_path)
          else if str_eq (nested_string r host_path) canary_host
          then wrap_error "set canary weight" (set_nested_int r canary weight_path)
          else inr r
        else inr r

    pub set_routes : List V → Error ⊎ List V
    set_routes [] = inr []
    set_routes (r ∷ rs) = set_route r >=> λ r'. set_routes rs >=> λ rs'. inr (r' ∷ rs')

  -- From the first http route on: the loop, and the two writes back.
  pub patch_first : String → V → V → List V → String → ℤ → String → ℤ → Error ⊎ V
  patch_first text vs first rest stable_host stable canary_host canary =
      if is_map first
      then (found_routes text (nested_slice first route_path) >=> λ routes.
          set_routes stable_host stable canary_host canary routes >=> λ routes'.
          wrap_error "set routes" (set_nested_slice first routes' route_path) >=> λ first'.
          wrap_error "set http routes" (set_nested_slice vs (first' ∷ rest) http_path))
      else inl (failure (text +s ": spec.http[0] is not a map"))

  -- What the function does between reading the object and writing it.
  unfoldable pub patch : String → V → String → ℤ → String → ℤ → Error ⊎ V
  unfolding patch_first set_routes set_route
  patch text vs stable_host stable canary_host canary =
      http_routes text (nested_slice vs http_path) >=> λ (first, rest).
      patch_first text vs first rest stable_host stable canary_host canary

  unfoldable pub set_virtual_service_weights :
      {F : Type 0} → Env F V → String → String → String → ℤ → String → ℤ → M F V (Unit {0})
  unfolding patch
  set_virtual_service_weights env ns vs_name stable_host stable canary_host canary = do
    vs ←
        wrapping ("get " +s named ns vs_name)
          (fetch_virtual_service env (record { namespace = ns; name = vs_name }))
    vs' ← lift (patch (named ns vs_name) vs stable_host stable canary_host canary)
    wrapping ("update " +s named ns vs_name) (write_virtual_service env vs')

-- ===== src/VirtualService/Weights.antt =====
-- What `patch` does to the routes of the first http route.
use statgate.Prelude.{
  ℕ, ℤ, pos, zero, suc, String, Option, none, some, List, [], ◌∷◌, ◌⊎◌, inl, inr, ◌≡◌, refl, ◌+ℤ◌,
  int_laws, if◌then◌else◌, str_eq, arith, Bool-cases, ◌∙◌, sym,
}
use statgate.Actions.{Error, wrap_error}
use statgate.VirtualService.{
  Unstructured, host_path, weight_path, route_path, http_path, ◌>=>◌, set_route, set_routes,
  http_routes, found_routes, patch_first, patch,
}
use statgate.VirtualService.Laws.{IsUnstructured}

-- What a route is to the patch: no map and hosts of neither kind are `neither`.
pub data Role : Type 0 where
  stable_route canary_route neither : Role

abbrev pub add_stable : Role → ℕ → ℕ
add_stable stable_route n = suc n
add_stable _ n = n

abbrev pub add_canary : Role → ℕ → ℕ
add_canary canary_route n = suc n
add_canary _ n = n

abbrev pub weight_or_zero : Option ℤ → ℤ
weight_or_zero none = pos 0
weight_or_zero (some w) = w

abbrev pub weight_of : Role → Option ℤ → ℤ
weight_of neither o = pos 0
weight_of _ o = weight_or_zero o

abbrev times : ℕ → ℤ → ℤ
times zero w = pos 0
times (suc n) w = w +ℤ times n w

weight_of-+ℤ :
    (stable canary : ℤ) (ρ : Role) (o : Option ℤ) (m n : ℕ) (t : ℤ)
    → (ρ ≡ stable_route → o ≡ some stable)
    → (ρ ≡ canary_route → o ≡ some canary)
    → t ≡ times m stable +ℤ times n canary
    → weight_of ρ o +ℤ t ≡ times (add_stable ρ m) stable +ℤ times (add_canary ρ n) canary
weight_of-+ℤ stable canary stable_route o m n t hs hc e = rw (hs refl, e) (omega int_laws)
weight_of-+ℤ stable canary canary_route o m n t hs hc e = rw (hc refl, e) (omega int_laws)
weight_of-+ℤ stable canary neither o m n t hs hc e = rw e (omega int_laws)

abbrev pub Pointwise : {A : Type 0} → (A → A → Type 0) → List A → List A → Type 0
Pointwise R [] [] = Unit {0}
Pointwise R (x ∷ xs) (y ∷ ys) = R x y × Pointwise R xs ys
Pointwise R _ _ = ⊥

pub >=>-eq-inr :
    {A B : Type 0} (m : Error ⊎ A) (f : A → Error ⊎ B) (b : B)
    → (m >=> f) ≡ inr b
    → (a : A) × (m ≡ inr a) × (f a ≡ inr b)
>=>-eq-inr (inl e) f b h = cc
>=>-eq-inr (inr a) f b h = (a, refl, h)

wrap_error-eq-inr :
    {A : Type 0} (s : String) (m : Error ⊎ A) (a : A) → wrap_error s m ≡ inr a → m ≡ inr a
wrap_error-eq-inr s (inl e) a h = cc
wrap_error-eq-inr s (inr b) a h = h

http_routes-eq-inr :
    {V : Type 0} (text : String) (o : Error ⊎ Option (List V)) (first : V) (rest : List V)
    → http_routes text o ≡ inr (first, rest)
    → o ≡ inr (some (first ∷ rest))
http_routes-eq-inr text o first rest h = ground arith

found_routes-eq-inr :
    {V : Type 0} (text : String) (o : Error ⊎ Option (List V)) (routes : List V)
    → found_routes text o ≡ inr routes
    → o ≡ inr (some routes)
found_routes-eq-inr text o routes h = ground arith

module _ {V : Type 0} ⦃u : Unstructured V⦄ (laws : IsUnstructured u) where
  open u use {is_map, nested_slice, nested_string, set_nested_int, set_nested_slice}
  open laws use {nested_int, int-set_int, is_map-set_int, string-set_int, slice-set_slice}

  module _ (stable_host : String) (canary_host : String) where
    abbrev pub role : V → Role
    role r =
        if is_map r
        then if str_eq (nested_string r host_path) stable_host
          then stable_route
          else if str_eq (nested_string r host_path) canary_host
          then canary_route
          else neither
        else neither

    -- How many routes have a role.
    abbrev pub stable_count : List V → ℕ
    stable_count [] = 0
    stable_count (r ∷ rs) = add_stable (role r) (stable_count rs)

    abbrev pub canary_count : List V → ℕ
    canary_count [] = 0
    canary_count (r ∷ rs) = add_canary (role r) (canary_count rs)

    -- The traffic shares of the two services together.
    abbrev pub total_weight : List V → ℤ
    total_weight [] = pos 0
    total_weight (r ∷ rs) = weight_of (role r) (nested_int r weight_path) +ℤ total_weight rs

    module _ (stable canary : ℤ) where
      pub record IsWeighted (r r' : V) : Type 0 where
        pub role_kept : role r' ≡ role r
        pub stable_weighted : role r ≡ stable_route → nested_int r' weight_path ≡ some stable
        pub canary_weighted : role r ≡ canary_route → nested_int r' weight_path ≡ some canary
        pub untouched : role r ≡ neither → r' ≡ r

      role-set_int :
          (r : V) (n : ℤ) (r' : V) → set_nested_int r n weight_path ≡ inr r' → role r' ≡ role r
      role-set_int r n r' h = rw (
        is_map-set_int r n weight_path r' h,
        string-set_int r n "weight" "destination" [] ("host" ∷ []) r' refl h,
      )

      set_route-IsWeighted :
          (r r' : V) → set_route stable_host stable canary_host canary r ≡ inr r' → IsWeighted r r'
      unfolding set_route
      set_route-IsWeighted r r' h = ground (
        arith,
        role-set_int r stable r',
        role-set_int r canary r',
        int-set_int r stable weight_path r',
        int-set_int r canary weight_path r',
      )

      set_routes-Pointwise :
          (rs rs' : List V)
          → set_routes stable_host stable canary_host canary rs ≡ inr rs'
          → Pointwise IsWeighted rs rs'
      unfolding set_routes
      set_routes-Pointwise [] [] h = tt
      set_routes-Pointwise [] (r' ∷ rs') h = cc
      set_routes-Pointwise (r ∷ rs) [] h = ground arith
      set_routes-Pointwise (r ∷ rs) (r' ∷ rs') h =
          ground (arith, set_route-IsWeighted r r', set_routes-Pointwise rs rs')

      total_weight-Pointwise :
          (rs rs' : List V)
          → Pointwise IsWeighted rs rs'
          → total_weight rs' ≡ times (stable_count rs) stable +ℤ times (canary_count rs) canary
      total_weight-Pointwise [] [] h = omega int_laws
      total_weight-Pointwise [] (r' ∷ rs') h = absurd h
      total_weight-Pointwise (r ∷ rs) [] h = absurd h
      total_weight-Pointwise (r ∷ rs) (r' ∷ rs') (w, ws) = rw w.role_kept (
          weight_of-+ℤ stable canary (role r) (nested_int r' weight_path) _ _ _ w.stable_weighted
            w.canary_weighted (total_weight-Pointwise rs rs' ws))

      -- What the object holds after the patch, of the first http route; the other http routes stay.
      pub record IsPatched (vs vs' : V) : Type 0 where
        pub first : V
        pub first' : V
        pub rest : List V
        pub routes : List V
        pub routes' : List V
        pub before : nested_slice vs http_path ≡ inr (some (first ∷ rest))
        pub routes_before : nested_slice first route_path ≡ inr (some routes)
        pub after : nested_slice vs' http_path ≡ inr (some (first' ∷ rest))
        pub routes_after : nested_slice first' route_path ≡ inr (some routes')
        pub weighted : Pointwise IsWeighted routes routes'

      -- A patch that succeeds puts the two weights on the routes of the first http route by their
      -- hosts, keeps the order and the roles, and leaves every other route as it was.
      pub patch-IsPatched :
          (text : String) (vs vs' : V)
          → patch text vs stable_host stable canary_host canary ≡ inr vs'
          → IsPatched vs vs'
      unfolding patch patch_first
      patch-IsPatched text vs vs' h =
          let ((first, rest), found, h₁) =
            >=>-eq-inr (http_routes text (nested_slice vs http_path)) _ vs' h in
          elim (Bool-cases (is_map first)) [
            | inr not_map ↦ absurd (ground arith)
            | inl map ↦
                let h₂ = rw map at h₁ in
                let (routes, found', h₃) =
                  >=>-eq-inr (found_routes text (nested_slice first route_path)) _ vs' h₂ in
                let (routes', set, h₄) =
                  >=>-eq-inr (set_routes stable_host stable canary_host canary routes) _ vs' h₃ in
                let (first', e, h₅) =
                  >=>-eq-inr (wrap_error "set routes" (set_nested_slice first routes' route_path)) _
                    vs' h₄ in
                record {
                  first = first;
                  first' = first';
                  rest = rest;
                  routes = routes;
                  routes' = routes';
                  before = http_routes-eq-inr text _ first rest found;
                  routes_before = found_routes-eq-inr text _ routes found';
                  after = slice-set_slice vs _ _ vs' (wrap_error-eq-inr _ _ _ h₅);
                  routes_after = slice-set_slice first _ _ first' (wrap_error-eq-inr _ _ _ e);
                  weighted = set_routes-Pointwise routes routes' set;
                }
          ]

      -- If one route of the first http route goes to each service, then after a patch that succeeds the
      -- weights on the routes of the two services add up to the two weights of the call, and the other
      -- http routes stay.
      pub total_weight_one_each :
          (text : String) (vs vs' first : V) (rest routes : List V)
          → patch text vs stable_host stable canary_host canary ≡ inr vs'
          → nested_slice vs http_path ≡ inr (some (first ∷ rest))
          → nested_slice first route_path ≡ inr (some routes)
          → stable_count routes ≡ 1
          → canary_count routes ≡ 1
          → (first' : V) × (routes' : List V) × (nested_slice vs' http_path
              ≡ inr (some (first' ∷ rest)))
            × (nested_slice first' route_path ≡ inr (some routes'))
            × (total_weight routes' ≡ stable +ℤ canary)
      total_weight_one_each text vs vs' first rest routes done here listed hs hc =
          let p = patch-IsPatched text vs vs' done in
          let same : p.first ≡ first = ground (arith, p.before, here) in
          let others : p.rest ≡ rest = ground (arith, p.before, here) in
          let seen : p.routes ≡ routes = ground (arith, p.routes_before, listed, same) in
          (
            p.first',
            p.routes',
            rw (sym others) p.after,
            p.routes_after,
            total_weight-Pointwise routes p.routes' (rw seen at p.weighted)
                ∙ rw (hs, hc) (omega int_laws),
          )

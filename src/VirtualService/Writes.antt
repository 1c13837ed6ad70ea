-- ===== src/VirtualService/Writes.antt =====
-- The calls that `SetVirtualServiceWeights` makes.
use statgate.Prelude.{
  ℤ, true, false, String, Option, none, some, List, [], ◌∷◌, ◌⊎◌, inl, inr, ◌≡◌, ◌+s◌, arith, refl,
}
use statgate.Actions.{Error, failure, ok, err, wrap, ◌>>=◌, lift, wrapping, perform}
use statgate.Effects.{
  ObjectKey, Env, Call, History, get_virtual_service, update_virtual_service, fetch_virtual_service,
  write_virtual_service,
}
use statgate.Actions.Rules.{Ensures, Ensures-bind, Ensures-perform, Ensures-lift, Ensures-wrapping}
use statgate.VirtualService.{
  Unstructured, http_path, route_path, http_routes, found_routes, named, patch, patch_first,
  set_virtual_service_weights,
}

module _ {V : Type 0} ⦃u : Unstructured V⦄ where
  -- What is wrong with an object, and the error for it: it has no list of http routes with a first one,
  -- the first is no map, or the first has no list of routes.
  pub data IsMisshapen (text : String) (vs : V) (e : Error) : Type 0 where
    no_http :
        ((first : V) (rest : List V) → u.nested_slice vs http_path ≡ inr (some (first ∷ rest)) → ⊥)
        → e ≡ failure (text +s " has no spec.http routes")
        → IsMisshapen text vs e
    not_map :
        (first : V) (rest : List V)
        → u.nested_slice vs http_path ≡ inr (some (first ∷ rest))
        → u.is_map first ≡ false
        → e ≡ failure (text +s ": spec.http[0] is not a map")
        → IsMisshapen text vs e
    no_route :
        (first : V) (rest : List V)
        → u.nested_slice vs http_path ≡ inr (some (first ∷ rest))
        → u.is_map first ≡ true
        → ((routes : List V) → u.nested_slice first route_path ≡ inr (some routes) → ⊥)
        → e ≡ failure (text +s ": spec.http[0].route not found")
        → IsMisshapen text vs e

  http_routes-none :
      (text : String) (o : Error ⊎ Option (List V))
      → ((first : V) (rest : List V) → o ≡ inr (some (first ∷ rest)) → ⊥)
      → http_routes text o ≡ inl (failure (text +s " has no spec.http routes"))
  http_routes-none text (inl e) n = refl
  http_routes-none text (inr none) n = refl
  http_routes-none text (inr (some [])) n = refl
  http_routes-none text (inr (some (first ∷ rest))) n = absurd (n first rest refl)

  found_routes-none :
      (text : String) (o : Error ⊎ Option (List V))
      → ((routes : List V) → o ≡ inr (some routes) → ⊥)
      → found_routes text o ≡ inl (failure (text +s ": spec.http[0].route not found"))
  found_routes-none text (inl e) n = refl
  found_routes-none text (inr none) n = refl
  found_routes-none text (inr (some routes)) n = absurd (n routes refl)

  patch-IsMisshapen :
      (stable_host : String) (stable : ℤ) (canary_host : String) (canary : ℤ) (text : String)
      (vs : V) (e : Error)
      → IsMisshapen text vs e
      → patch text vs stable_host stable canary_host canary ≡ inl e
  unfolding patch patch_first
  patch-IsMisshapen stable_host stable canary_host canary text vs e (no_http n same) =
      rw (http_routes-none text (u.nested_slice vs http_path) n, same) refl
  patch-IsMisshapen stable_host stable canary_host canary text vs e (not_map first rest at m same) =
      rw (at, m, same) refl
  patch-IsMisshapen stable_host stable canary_host canary text vs e
        (no_route first rest at m n same) =
      rw (at, m, found_routes-none text (u.nested_slice first route_path) n, same) refl

module _ {F V : Type 0} ⦃u : Unstructured V⦄ (env : Env F V) (ns vs_name stable_host : String)
    (stable : ℤ) (canary_host : String) (canary : ℤ) where
  -- Whatever is written is the patched form of what was answered.
  pub set_virtual_service_weights-Ensures :
      {P : Call F V → Type 0} {K : Type 0}
      → P (get_virtual_service (record { namespace = ns; name = vs_name }))
      → ((before : History F V) (vs vs' : V)
          → env.virtual_service_at before (record { namespace = ns; name = vs_name }) ≡ inr vs
          → patch (named ns vs_name) vs stable_host stable canary_host canary ≡ inr vs'
          → P (update_virtual_service vs'))
      → Ensures P K
          (λ _. Unit {0})
          (set_virtual_service_weights env ns vs_name stable_host stable canary_host canary)
  unfolding set_virtual_service_weights fetch_virtual_service write_virtual_service
  set_virtual_service_weights-Ensures {P} {K} read write =
      Ensures-bind
        {Q = λ vs.
          (before : History F V) × (env.virtual_service_at before
              (record { namespace = ns; name = vs_name })
            ≡ inr vs)}
        _ _ (Ensures-wrapping _ _ (Ensures-perform _ _ read (λ h vs e. (h, e))))
        λ vs (before, answered).
          Ensures-bind {Q = λ vs'. P (update_virtual_service vs')} _ _
            (Ensures-lift _ (λ vs'. write before vs vs' answered))
            λ vs' p. Ensures-wrapping _ _ (Ensures-perform _ _ p (λ h a e. tt))

  module _ (h : History F V) where
    abbrev key : ObjectKey
    key = record { namespace = ns; name = vs_name }

    abbrev name_text : String
    name_text = named ns vs_name

    -- Without errors the object is read, patched and written, in that order.
    pub set_virtual_service_weights_ok :
        (vs vs' : V)
        → env.virtual_service_at h key ≡ inr vs
        → patch name_text vs stable_host stable canary_host canary ≡ inr vs'
        → env.virtual_service_written (get_virtual_service key ∷ h) vs' ≡ inr tt
        → set_virtual_service_weights env ns vs_name stable_host stable canary_host canary h
          ≡ (ok tt, update_virtual_service vs' ∷ get_virtual_service key ∷ h)
    unfolding set_virtual_service_weights fetch_virtual_service write_virtual_service perform ◌>>=◌
        lift wrapping
    set_virtual_service_weights_ok vs vs' read patched written = ground arith

    -- An object that cannot be read, or that has not the expected shape, is not written: after the one
    -- call that read it the error is returned, with the text that says what is wrong.
    pub set_virtual_service_weights_no_write :
        (e : Error)
        → ((e' : Error) × (env.virtual_service_at h key ≡ inl e')
            × (e ≡ wrap ("get " +s name_text) e'))
          ⊎ ((vs : V) × (env.virtual_service_at h key ≡ inr vs) × IsMisshapen name_text vs e)
        → set_virtual_service_weights env ns vs_name stable_host stable canary_host canary h
          ≡ (err e, get_virtual_service key ∷ h)
    unfolding set_virtual_service_weights fetch_virtual_service write_virtual_service perform ◌>>=◌
        lift wrapping
    set_virtual_service_weights_no_write e (inl (e', fails, same)) = rw (fails, same) refl
    set_virtual_service_weights_no_write e (inr (vs, read, shape)) =
        let fails = patch-IsMisshapen stable_host stable canary_host canary name_text vs e shape in
        ground arith

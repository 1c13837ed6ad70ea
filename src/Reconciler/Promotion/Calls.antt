-- ===== src/Reconciler/Promotion/Calls.antt =====
-- The parts of a cycle on a cluster that answers.
use statgate.Prelude.{ℕ, ℤ, pos, true, some, String, List, [], ◌∷◌, inr, ◌≡◌, refl}
use statgate.Float64.{Float64}
use statgate.Api.{CanaryRollout, CanaryRolloutStatus, RolloutPhase}
use statgate.Actions.{ok, perform, pure, wrapping, ◌>>=◌}
use statgate.Effects.{
  ObjectKey, Env, History, Deployment, Labels, Pod, get_virtual_service, update_virtual_service,
  get_deployment, list_pods, update_status, set_gauge, read_clock, canary_weight, rollout_phase,
  now, set, write_status, fetch_deployment, fetch_pods,
}
use statgate.Metrics.{record_rollout_phase, record_canary_weight, phase_code}
use statgate.VirtualService.{Unstructured}
use statgate.VirtualService.Writes.{set_virtual_service_weights_ok}
use statgate.Reconciler.{is_canary_ready, pods_of, any_ready, set_weights, set_status}
use statgate.Reconciler.Promotion.{IsServing, vs_key, with_status}

module _ {F V : Type 0} ⦃fl : Float64 F⦄ ⦃u : Unstructured V⦄ (env : Env F V) (key : ObjectKey)
    (base s : CanaryRollout F) (tick : ℕ) (serving : IsServing env key base s tick) where
  ready_parts :
      (name : String) (h : History F V) (d : Deployment) (labels : Labels) (pods : List Pod)
      → env.deployment_at h (record { namespace = s.namespace; name = name }) ≡ inr d
      → d.selector ≡ some labels
      → env.pods_at
          (get_deployment (record { namespace = s.namespace; name = name }) ∷ h)
          s.namespace
          labels
        ≡ inr pods
      → any_ready pods ≡ true
      → is_canary_ready env s.namespace name h ≡ (
        ok true,
        list_pods s.namespace labels
            ∷ get_deployment (record { namespace = s.namespace; name = name })
            ∷ h,
      )
  unfolding is_canary_ready pods_of fetch_deployment fetch_pods perform pure wrapping ◌>>=◌
  ready_parts name h d labels pods deployed selected listed ready =
      rw (deployed, selected, listed, ready) refl

  -- The pods are found ready.
  pub is_canary_ready-serving :
      (name : String) (h : History F V)
      → (labels : Labels) × (is_canary_ready env s.namespace name h ≡ (
        ok true,
        list_pods s.namespace labels
            ∷ get_deployment (record { namespace = s.namespace; name = name })
            ∷ h,
      ))
  is_canary_ready-serving name h =
      let (d, labels, deployed, selected) =
        serving.deploys h (record { namespace = s.namespace; name = name }) in
      let (pods, listed, ready) =
        serving.ready (get_deployment (record { namespace = s.namespace; name = name }) ∷ h)
          labels in
      (labels, ready_parts name h d labels pods deployed selected listed ready)

  -- The traffic is moved.
  pub set_weights-serving :
      (t : CanaryRolloutStatus F) (stable canary : ℤ) (h : History F V)
      → (vs : V) × (set_weights env (with_status s t) stable canary h
          ≡ (ok tt, update_virtual_service vs ∷ get_virtual_service (vs_key s) ∷ h))
  unfolding set_weights
  set_weights-serving t stable canary h =
      let (vs, vs', read, patched) = serving.routed h stable canary in
      (
        vs',
        set_virtual_service_weights_ok env _ _ _ _ _ _ h vs vs' read patched (serving.routes _ _),
      )

  -- The status is stored.
  pub set_status-serving :
      (r : CanaryRollout F) (phase : RolloutPhase) (step weight : ℤ) (message : String) (code : ℕ)
      (h : History F V)
      → phase_code phase ≡ some code
      → set_status env r phase step weight message h ≡ (
        ok tt,
        update_status (record r {
          status = record r.status {
            phase = phase;
            current_step = step;
            current_weight = weight;
            last_transition_time = env.now_at h;
            message = message;
          };
        })
            ∷ set_gauge canary_weight (r.namespace ∷ r.name ∷ []) (fl.of_int weight)
            ∷ set_gauge rollout_phase (r.namespace ∷ r.name ∷ []) (fl.of_int (pos code))
            ∷ read_clock
            ∷ h,
      )
  unfolding set_status record_rollout_phase record_canary_weight now write_status set perform pure
      wrapping ◌>>=◌
  set_status-serving r phase step weight message code h coded = rw (coded, serving.stores _ _) refl

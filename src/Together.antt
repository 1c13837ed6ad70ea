-- ===== src/Together.antt =====
-- The command line and the controller on one API server: what a subcommand of cmd/statctl stores, and what
-- the cycles of internal/controller make of it.
use statgate.Prelude.{
  ℕ, suc, ◌+◌, ◌*◌, ◌≤◌, ◌+ℤ◌, ◌≤ℤ◌, ◌++◌, length, pos, true, false, String, List, [], ◌∷◌, inr,
  ◌≡◌, refl, ap,
}
use statgate.Float64.{Float64}
use statgate.Api.{CanaryRollout, paused, promoted}
use statgate.Actions.{Result, ok}
use statgate.Effects.{
  ObjectKey, Env, History, Flags, get_rollout, connect, update_status, set_gauge, canary_weight,
  rollout_phase, read_clock,
}
use statgate.VirtualService.{Unstructured}
use statgate.Reconciler.{is_aborted, is_promoted, set_weights, reconcile}
use statgate.Reconciler.Runs.{edited}
use statgate.Reconciler.Progress.{stopped, reconcile_abort_ok}
use statgate.Statctl.Args.{split_args}
use statgate.Statctl.Client.{chosen_config, open_client}
use statgate.Statctl.Commands.{cmd_abort, cmd_resume}
use statgate.Statctl.Commands.Edits.{cmd_abort_ok, cmd_resume_ok}
use statgate.Reconciler.Promotion.{latest, cycles, IsServing, IsPlain}
use statgate.Reconciler.Promotion.Reach.{cycles_promote}

module _ {F V : Type 0} ⦃fl : Float64 F⦄ ⦃u : Unstructured V⦄ (env : Env F V) where
  -- `abort` takes effect in the next cycle: where the flags parse, a name is given, the client is made,
  -- the API server has the rollout, which is not aborted, takes the update and then answers with it, and
  -- the traffic goes back to the stable service, the cycle after the subcommand stores `Aborted` with
  -- the weight 0, in the rollout as the subcommand left it.
  pub abort_takes_effect :
      (args : List String) (h h' : History F V) (flags : Flags) (name : String)
      (names : List String) (key : ObjectKey) (r : CanaryRollout F)
      → env.parse_flags "abort" (split_args args).0 ≡ inr flags
      → (split_args args).1 ≡ name ∷ names
      → open_client env flags.kubeconfig h
        ≡ (ok tt, connect (chosen_config env flags.kubeconfig) ∷ h)
      → env.rollout_at
          (connect (chosen_config env flags.kubeconfig) ∷ h)
          (record { namespace = flags.namespace; name = name })
        ≡ inr r
      → env.updated
          (get_rollout (record { namespace = flags.namespace; name = name })
            ∷ connect (chosen_config env flags.kubeconfig)
            ∷ h)
          (edited r r.spec.paused true)
        ≡ inr tt
      → is_aborted r.status.phase ≡ false
      → env.rollout_at (cmd_abort env args h).1 key ≡ inr (edited r r.spec.paused true)
      → set_weights env
          (edited r r.spec.paused true)
          (pos 100)
          (pos 0)
          (get_rollout key ∷ (cmd_abort env args h).1)
        ≡ (ok tt, h')
      → ((cmd_abort env args h).0 ≡ ok tt)
        × ((reconcile env key (cmd_abort env args h).1).1
            ≡ update_status (stopped env (edited r r.spec.paused true) (env.now_at h'))
              ∷ set_gauge canary_weight (r.namespace ∷ r.name ∷ []) (fl.of_int (pos 0))
              ∷ set_gauge rollout_phase (r.namespace ∷ r.name ∷ []) (fl.of_int (pos 4))
              ∷ read_clock
              ∷ h')
  abort_takes_effect args h h' flags name names key r parsed named joined read updated on stored
        moved =
      (
        ap (λ x. x.0) (cmd_abort_ok env args h flags name names r parsed named joined read updated),
        reconcile_abort_ok env key (cmd_abort env args h).1 h' (edited r r.spec.paused true) stored
            on refl moved,
      )

  -- After `resume` a paused rollout is promoted: where the flags parse, a name is given, the client is
  -- made, and the API server has the rollout, which is paused at a step of its list, takes the update and
  -- keeps what is stored, and the rollout is not analysed, on a cluster that answers without errors, whose
  -- pods are ready at each cycle and whose VirtualService takes the weights, and whose clock moves on by `tick` from each cycle to the next and from the last transition to the first cycle:
  -- the subcommand returns, and if no pause is longer than `waits` + 1 ticks, the cycles after it bring the
  -- rollout to `Promoted` with the weight 100, `waits` + 2 for each step and two more.
  pub resume_promotes :
      (args : List String) (h : History F V) (flags : Flags) (name : String) (names : List String)
      (key : ObjectKey) (base r : CanaryRollout F) (longest tick waits n k : ℕ)
      → env.parse_flags "resume" (split_args args).0 ≡ inr flags
      → (split_args args).1 ≡ name ∷ names
      → open_client env flags.kubeconfig h
        ≡ (ok tt, connect (chosen_config env flags.kubeconfig) ∷ h)
      → env.rollout_at
          (connect (chosen_config env flags.kubeconfig) ∷ h)
          (record { namespace = flags.namespace; name = name })
        ≡ inr r
      → env.updated
          (get_rollout (record { namespace = flags.namespace; name = name })
            ∷ connect (chosen_config env flags.kubeconfig)
            ∷ h)
          (edited r false false)
        ≡ inr tt
      → r.status.phase ≡ paused
      → r.status.current_step ≡ pos k
      → k ≤ length r.spec.steps
      → IsServing env key base (edited r false false) tick
      → IsPlain (edited r false false) longest
      → longest ≤ suc waits * tick
      → ((cycle : History F V)
          → r.status.last_transition_time +ℤ pos tick
            ≤ℤ env.now_at (cycle ++ (get_rollout key ∷ (cmd_resume env args h).1)))
      → length r.spec.steps * (waits + 2) + 2 ≤ n
      → let stored = latest base (cycles env key n (cmd_resume env args h).1) in
        ((cmd_resume env args h).0 ≡ ok tt)
        × (stored.status.phase ≡ promoted)
        × (stored.status.current_weight ≡ pos 100)
  resume_promotes args h flags name names key base r longest tick waits n k parsed named joined read
        updated was step within serving plain enough before e =
      let done = cmd_resume_ok env args h flags name names r parsed named joined read updated in
      let (phase, weight, _) =
        cycles_promote env key base (edited r false false) longest tick waits n k
          (cmd_resume env args h).1 serving plain enough
          (ap (λ (x : Result (Unit {0}) × History F V). latest base x.1) done) (ap is_aborted was)
          (ap is_promoted was) step within before e in
      (ap (λ x. x.0) done, phase, weight)

-- ===== src/Tests/Together.antt =====
-- The rollback of the demo rollout by `statctl`, on an API server that keeps what is stored.
use statgate.Prelude.{ℤ, pos, true, false, String, List, [], ◌∷◌, inr, ◌≡◌, refl}
use statgate.Api.{CanaryRollout}
use statgate.Actions.{ok, lift, perform, wrapping, pure, ◌>>=◌}
use statgate.Effects.{
  Env, History, Flags, get_rollout, get_virtual_service, update_virtual_service, update_rollout,
  connect, update_status, set_gauge, canary_weight, rollout_phase, read_clock,
  write_virtual_service, fetch_virtual_service, fetch_rollout,
}
use statgate.VirtualService.{patch, set_virtual_service_weights}
use statgate.Reconciler.{set_weights, reconcile}
use statgate.Reconciler.Runs.{edited}
use statgate.Reconciler.Progress.{stopped}
use statgate.Statctl.Args.{split_args}
use statgate.Statctl.Client.{chosen_config, open_client}
use statgate.Statctl.Commands.{cmd_abort, parse}
use statgate.Statctl.Commands.Edits.{edit_calls}
use statgate.Together.{abort_takes_effect}
use statgate.Tests.Sample.{Object, integer_floats, objects}
use statgate.Tests.Cluster.{demo_key, demo_env}
use statgate.Tests.Progress.{last, stable_virtual_service, demo_vs_key}

-- The rollout that was stored last.
abbrev latest : History ℤ Object → CanaryRollout ℤ
latest [] = last
latest (update_rollout r ∷ h) = r
latest (c ∷ h) = latest h

abbrev env : Env ℤ Object
env = record (demo_env last (pos 7) (pos 3)) { rollout_at = λ h k. inr (latest h) }

abbrev args : List String
args = "-n" ∷ "statgate-demo" ∷ "demo-rollout" ∷ []

abbrev flags : Flags
flags = record {
  namespace = "statgate-demo";
  kubeconfig = "";
  file = "rollout.yaml";
  interval = pos 2;
}

abbrev aborting : CanaryRollout ℤ
aborting = edited last false true

-- The calls of the subcommand.
abbrev asked : History ℤ Object
asked = edit_calls env flags "demo-rollout" last aborting "aborted — rolling back to stable" []

abbrev moved_back : History ℤ Object
moved_back =
    update_virtual_service stable_virtual_service
    ∷ get_virtual_service demo_vs_key
    ∷ get_rollout demo_key
    ∷ asked

client_made : open_client env "" [] ≡ (ok tt, connect (chosen_config env "") ∷ [])
unfolding open_client wrapping lift perform ◌>>=◌
client_made = refl

asks : (cmd_abort env args []).1 ≡ asked
unfolding cmd_abort split_args parse open_client fetch_rollout wrapping lift perform pure ◌>>=◌
asks = refl

moves_back :
    set_weights env aborting (pos 100) (pos 0) (get_rollout demo_key ∷ asked) ≡ (ok tt, moved_back)
unfolding set_weights set_virtual_service_weights fetch_virtual_service write_virtual_service patch
    lift perform wrapping ◌>>=◌
moves_back = refl

stored : env.rollout_at (cmd_abort env args []).1 demo_key ≡ inr aborting
stored = rw asks refl

moved :
    set_weights env aborting (pos 100) (pos 0) (get_rollout demo_key ∷ (cmd_abort env args []).1)
    ≡ (ok tt, moved_back)
moved = rw asks moves_back

abort_takes_effect_example :
    ((cmd_abort env args []).0 ≡ ok tt)
    × ((reconcile env demo_key (cmd_abort env args []).1).1
        ≡ update_status (stopped env aborting (pos 7))
          ∷ set_gauge canary_weight ("statgate-demo" ∷ "demo-rollout" ∷ []) (pos 0)
          ∷ set_gauge rollout_phase ("statgate-demo" ∷ "demo-rollout" ∷ []) (pos 4)
          ∷ read_clock
          ∷ moved_back)
unfolding split_args
abort_takes_effect_example =
    abort_takes_effect env args [] moved_back flags "demo-rollout" [] demo_key last refl refl
      client_made refl refl refl stored moved

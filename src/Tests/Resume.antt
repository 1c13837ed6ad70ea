-- ===== src/Tests/Resume.antt =====
-- A paused rollout that is resumed by `statctl` and promoted by the controller.
use statgate.Prelude.{
  ◌+◌, ◌*◌, ℤ, pos, ◌+ℤ◌, ◌≤ℤ◌, ◌*ℤ◌, wrap64, true, false, String, List, [], ◌∷◌, ◌++◌, inr, ◌≡◌,
  refl, arith,
}
use statgate.Api.{CanaryRollout, paused, promoted}
use statgate.Actions.{ok, perform, wrapping, lift, ◌>>=◌}
use statgate.Effects.{Env, History, Flags, connect, get_rollout, read_clock}
use statgate.VirtualService.{patch}
use statgate.Reconciler.{seconds}
use statgate.Reconciler.Runs.{edited}
use statgate.Reconciler.Promotion.{latest, cycles, IsServing, IsPlain}
use statgate.Statctl.Args.{split_args}
use statgate.Statctl.Client.{chosen_config, open_client}
use statgate.Statctl.Commands.{cmd_resume}
use statgate.Together.{resume_promotes}
use statgate.Tests.Sample.{Object, integer_floats, objects}
use statgate.Tests.Cluster.{demo_key, demo_env, demo_deployment, demo_virtual_service, ready_pod}
use statgate.Tests.Promotion.{fresh_rollout, readings, readings-append, apart}

-- The rollout was paused in its second step.
abbrev halted : CanaryRollout ℤ
halted = record fresh_rollout {
  spec = record fresh_rollout.spec { paused = true };
  status = record fresh_rollout.status {
    phase = paused;
    current_step = pos 1;
    current_weight = pos 25;
  };
}

abbrev env : Env ℤ Object
env = record (demo_env halted (pos 0) (pos 3)) {
  rollout_at = λ h k. inr (latest halted h);
  now_at = λ h. pos ((1 + readings h) * 30000000000);
}

abbrev args : List String
args = "demo-rollout" ∷ []

abbrev flags : Flags
flags = record {
  namespace = "statgate-demo";
  kubeconfig = "";
  file = "rollout.yaml";
  interval = pos 2;
}

client_made : open_client env "" [] ≡ (ok tt, connect (chosen_config env "") ∷ [])
unfolding open_client wrapping lift perform ◌>>=◌
client_made = refl

serving : IsServing env demo_key halted (edited halted false false) 30000000000
unfolding patch
serving = record {
  keeps = λ h. refl;
  stores = λ h r. refl;
  deploys = λ h k. (demo_deployment, [], refl, refl);
  ready = λ h labels. (ready_pod ∷ [], refl, refl);
  routed = λ h stable canary. (demo_virtual_service, _, refl, refl);
  routes = λ h vs. refl;
  spaced = λ h later cycle. apart (1 + readings h) _ (
      omega (
        arith,
        readings-append cycle (get_rollout demo_key ∷ (later ++ (read_clock ∷ h))),
        readings-append later (read_clock ∷ h),
      ));
}

plain : IsPlain (edited halted false false) 60000000000
unfolding seconds wrap64 ◌*ℤ◌
plain = record {
  unpaused = refl;
  unstopped = refl;
  timed = refl;
  few_steps = omega arith;
  pauses = omega arith;
  in_range = omega arith;
}

before :
    (cycle : History ℤ Object)
    → pos 0 +ℤ pos 30000000000
      ≤ℤ pos (
          (1 + readings (cycle ++ (get_rollout demo_key ∷ (cmd_resume env args []).1)))
          * 30000000000)
before cycle = apart 0 _ (omega arith)

resume_promotes_example :
    let stored = latest halted (cycles env demo_key 11 (cmd_resume env args []).1) in
    ((cmd_resume env args []).0 ≡ ok tt)
    × (stored.status.phase ≡ promoted)
    × (stored.status.current_weight ≡ pos 100)
unfolding split_args
resume_promotes_example =
    resume_promotes env args [] flags "demo-rollout" [] demo_key halted halted 60000000000
      30000000000 1 11 1 refl refl client_made refl refl refl refl (omega arith) serving plain
      (omega arith) before (omega arith)

-- ===== src/Tests/Promotion.antt =====
-- The demo rollout without its analysis, cycle after cycle, on a cluster that keeps what is stored.
use statgate.Prelude.{
  ℕ, suc, ◌+◌, ◌*◌, ◌≤◌, ℤ, pos, ◌+ℤ◌, ◌≤ℤ◌, wrap64, ◌*ℤ◌, none, [], ◌∷◌, ◌++◌, inr, ◌≡◌, refl,
  arith,
}
use statgate.Api.{CanaryRollout, empty, promoted}
use statgate.Effects.{Env, History, get_rollout, read_clock}
use statgate.VirtualService.{patch}
use statgate.Reconciler.{seconds}
use statgate.Reconciler.Promotion.{latest, cycles, IsPlain, IsServing}
use statgate.Reconciler.Promotion.Reach.{cycles_promote}
use statgate.Tests.Sample.{Object, integer_floats, objects}
use statgate.Tests.Cluster.{
  demo_key, demo_env, demo_rollout, demo_deployment, demo_virtual_service, ready_pod,
}

abbrev pub fresh_rollout : CanaryRollout ℤ
fresh_rollout =
    let r = demo_rollout "" empty (pos 0) (pos 0) [] in
    record r { spec = record r.spec { analysis = none } }

abbrev pub readings : History ℤ Object → ℕ
readings [] = 0
readings (read_clock ∷ h) = suc (readings h)
readings (c ∷ h) = readings h

-- Half a minute goes by at each reading of the clock.
abbrev env : Env ℤ Object
env = record (demo_env fresh_rollout (pos 0) (pos 3)) {
  rollout_at = λ h k. inr (latest fresh_rollout h);
  now_at = λ h. pos ((1 + readings h) * 30000000000);
}

pub readings-append : (calls h : History ℤ Object) → readings h ≤ readings (calls ++ h)
readings-append [] h = omega arith
readings-append (c ∷ calls) h = grind (arith, readings-append calls h)

pub apart :
    (a b : ℕ) → suc a ≤ b → pos (a * 30000000000) +ℤ pos 30000000000 ≤ℤ pos (b * 30000000000)
unfolding ◌+ℤ◌
apart a b e = ground arith

serving : IsServing env demo_key fresh_rollout fresh_rollout 30000000000
unfolding patch
serving = record {
  keeps = λ h. refl;
  stores = λ h r. refl;
  deploys = λ h k. (demo_deployment, [], refl, refl);
  ready = λ h labels. (ready_pod ∷ [], refl, refl);
  routed = λ h stable canary. (demo_virtual_service, _, refl, refl);
  routes = λ h vs. refl;
  spaced = λ h later cycle. apart (1 + readings h) _ (
      omega (
        arith,
        readings-append cycle (get_rollout demo_key ∷ (later ++ (read_clock ∷ h))),
        readings-append later (read_clock ∷ h),
      ));
}

before :
    (cycle : History ℤ Object)
    → pos 0 +ℤ pos 30000000000
      ≤ℤ pos ((1 + readings (cycle ++ (get_rollout demo_key ∷ []))) * 30000000000)
before cycle = apart 0 _ (omega arith)

plain : IsPlain fresh_rollout 60000000000
unfolding seconds wrap64 ◌*ℤ◌
plain = record {
  unpaused = refl;
  unstopped = refl;
  timed = refl;
  few_steps = omega arith;
  pauses = omega arith;
  in_range = omega arith;
}

cycles_promote_example :
    let r = latest fresh_rollout (cycles env demo_key 11 []) in
    (r.status.phase ≡ promoted)
    × (r.status.current_weight ≡ pos 100)
    × (r.spec ≡ fresh_rollout.spec)
cycles_promote_example =
    cycles_promote env demo_key fresh_rollout fresh_rollout 60000000000 30000000000 1 11 0 []
      serving plain (omega arith) refl refl refl refl (omega arith) before (omega arith)

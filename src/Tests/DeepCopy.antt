-- ===== src/Tests/DeepCopy.antt =====
-- The theorems on the deep copies, in a heap with a list of one rollout that has an analysis.
use statgate.Prelude.{
  ◌⊎◌, ◌<◌, ℕ, ℤ, pos, false, Option, none, some, List, [], ◌∷◌, ◌≡◌, ◌≤◌, refl, arith, get_elem?,
}
use statgate.Api.{CanaryStep, SprtMetric, running}
use statgate.DeepCopy.Heap.{Heap, IsHeap}
use statgate.DeepCopy.Objects.{
  Analysis, Rollout, Ref, Cell, steps_cell, metrics_cell, analysis_cell, rollouts_cell,
  rollout_cell, list_cell, get_rollout, get_list, deep_copy_rollout, deep_copy_list,
}
use statgate.DeepCopy.Copier.{Agree, view_ref}
use statgate.DeepCopy.Correct.{RolloutValue, view_rollout}
use statgate.DeepCopy.Lists.{RolloutListValue, view_list}
use statgate.DeepCopy.Isolated.{stored, deep_copy_rollout-returns, deep_copy_list-keeps}

abbrev metric : SprtMetric ℤ
metric = record {
  name = "errors";
  canary_total_query = "a";
  canary_failure_query = "b";
  stable_total_query = "c";
  stable_failure_query = "d";
  delta = pos 1;
}

abbrev step : CanaryStep
step = record { weight = pos 25; pause_seconds = pos 60 }

abbrev analysis : Analysis ℤ
analysis = record {
  alpha = pos 1;
  beta = pos 2;
  analysis_interval_seconds = pos 30;
  metrics = some 1;
}

-- The steps are at 0, the metrics at 1 and the analysis at 2; the status has no states yet.
abbrev rollout : Rollout
rollout = record {
  namespace = "statgate-demo";
  name = "demo";
  creation_timestamp = pos 1;
  spec = record {
    target_ref = "demo";
    stable_service_ref = "stable";
    canary_service_ref = "canary";
    virtual_service_ref = "vs";
    steps = some 0;
    paused = false;
    abort = false;
    prometheus_url = "http://prometheus";
    analysis = some 2;
  };
  status = record {
    phase = running;
    current_step = pos 0;
    current_weight = pos 25;
    last_transition_time = pos 1;
    message = "";
    analysis_state = none;
  };
}

abbrev cells : List (Cell ℤ)
cells =
    steps_cell (step ∷ [])
    ∷ metrics_cell (metric ∷ [])
    ∷ analysis_cell analysis
    ∷ rollout_cell rollout
    ∷ rollouts_cell (rollout ∷ [])
    ∷ list_cell (record { resource_version = "9"; items = some 4 })
    ∷ []

abbrev heap : Heap (Cell ℤ)
heap = record { next = 6; cell = λ p. get_elem? cells p }

heap-IsHeap : IsHeap heap
heap-IsHeap = record { free = beyond }
  where
    beyond : (p : ℕ) → 6 ≤ p → get_elem? cells p ≡ none
    beyond p l = ground arith

abbrev value_seen : RolloutValue ℤ
value_seen = record {
  namespace = "statgate-demo";
  name = "demo";
  creation_timestamp = pos 1;
  spec = record {
    target_ref = "demo";
    stable_service_ref = "stable";
    canary_service_ref = "canary";
    virtual_service_ref = "vs";
    steps = some (step ∷ []);
    paused = false;
    abort = false;
    prometheus_url = "http://prometheus";
    analysis = some (record {
      alpha = pos 1;
      beta = pos 2;
      analysis_interval_seconds = pos 30;
      metrics = some (metric ∷ []);
    });
  };
  status = record {
    phase = running;
    current_step = pos 0;
    current_weight = pos 25;
    last_transition_time = pos 1;
    message = "";
    analysis_state = none;
  };
}

abbrev rollout_seen : Option (RolloutValue ℤ)
rollout_seen = some value_seen

abbrev list_seen : Option (RolloutListValue ℤ)
list_seen = some (record { resource_version = "9"; items = some (value_seen ∷ []) })

deep_copy_rollout-returns_example :
    (out : Ref) × (after : Heap (Cell ℤ)) × (deep_copy_rollout (some 3) heap ≡ some (out, after))
    × (view_ref get_rollout view_rollout after out ≡ some rollout_seen)
    × (view_ref get_rollout view_rollout after (some 3) ≡ some rollout_seen)
    × Agree 0 6 heap after
    × (((1 < 6)
          × (view_ref get_rollout view_rollout (stored 1 (metrics_cell []) after) out
              ≡ some rollout_seen))
        ⊎ ((6 ≤ 1)
            × (view_ref get_rollout view_rollout (stored 1 (metrics_cell []) after) (some 3)
                ≡ some rollout_seen)))
deep_copy_rollout-returns_example =
    deep_copy_rollout-returns heap (some 3) rollout_seen heap-IsHeap refl 1 (metrics_cell [])

-- The metrics of the original are cleared.
deep_copy_list-keeps_example :
    (out : Ref) × (after : Heap (Cell ℤ)) × (deep_copy_list (some 5) heap ≡ some (out, after))
    × (((1 < 6)
          × (view_ref get_list view_list (stored 1 (metrics_cell []) after) out ≡ some list_seen))
        ⊎ ((6 ≤ 1)
            × (view_ref get_list view_list (stored 1 (metrics_cell []) after) (some 5)
                ≡ some list_seen)))
deep_copy_list-keeps_example =
    deep_copy_list-keeps heap (some 5) list_seen heap-IsHeap refl 1 (metrics_cell [])

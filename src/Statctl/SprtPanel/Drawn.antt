-- ===== src/Statctl/SprtPanel/Drawn.antt =====
-- The part on the analysis is drawn for any rollout.
use statgate.Prelude.{Option, none, some, String, List, [], ◌∷◌, ◌≡◌, refl}
use statgate.Float64.{Float64}
use statgate.Api.{SprtMetric, SprtAnalysis, SprtMetricState, CanaryRollout}
use statgate.Effects.{Env}
use statgate.Statctl.Bar.{llr_bar-marker}
use statgate.Statctl.SprtPanel.{metric_lines, metrics_lines, render_sprt, lower, upper, last_state}

-- Something is drawn.
abbrev pub IsDrawn : Option (List String) → Type 0
IsDrawn o = (ls : List String) × (o ≡ some ls)

module _ {F V : Type 0} ⦃fl : Float64 F⦄ (env : Env F V) where
  metric_lines-IsDrawn :
      (a : SprtAnalysis F) (m : SprtMetric F) (s : Option (SprtMetricState F))
      → IsDrawn (metric_lines env a m s)
  unfolding metric_lines
  metric_lines-IsDrawn a m none = (_, refl)
  metric_lines-IsDrawn a m (some s) =
      let (n, bar, at, drawn, size, found) =
        llr_bar-marker s.log_likelihood (lower env a) (upper env a) in
      rw drawn (_, refl)

  metrics_lines-IsDrawn :
      (a : SprtAnalysis F) (states : List (SprtMetricState F)) (ms : List (SprtMetric F))
      → IsDrawn (metrics_lines env a states ms)
  unfolding metrics_lines
  metrics_lines-IsDrawn a states [] = (_, refl)
  metrics_lines-IsDrawn a states (m ∷ ms) =
      let (ls, first) = metric_lines-IsDrawn a m (last_state m.name states none) in
      let (rest, others) = metrics_lines-IsDrawn a states ms in rw (first, others) (_, refl)

  pub render_sprt-IsDrawn :
      (r : CanaryRollout F) (a : Option (SprtAnalysis F)) → IsDrawn (render_sprt env r a)
  unfolding render_sprt
  render_sprt-IsDrawn r none = (_, refl)
  render_sprt-IsDrawn r (some a) =
      let (ls, drawn) = metrics_lines-IsDrawn a r.status.analysis_state a.metrics in
      rw drawn (_, refl)

-- ===== src/Statctl/Dashboard/Drawn.antt =====
-- The dashboard is drawn for any rollout.
use statgate.Prelude.{refl, ℤ}
use statgate.Float64.{Float64}
use statgate.Api.{CanaryRollout}
use statgate.Effects.{Env}
use statgate.Statctl.SprtPanel.Drawn.{IsDrawn, render_sprt-IsDrawn}
use statgate.Statctl.Dashboard.{render_rollout}

module _ {F V : Type 0} ⦃fl : Float64 F⦄ (env : Env F V) where
  pub render_rollout-IsDrawn : (r : CanaryRollout F) (now : ℤ) → IsDrawn (render_rollout env r now)
  unfolding render_rollout
  render_rollout-IsDrawn r now =
      let (ls, drawn) = render_sprt-IsDrawn env r r.spec.analysis in rw drawn (_, refl)

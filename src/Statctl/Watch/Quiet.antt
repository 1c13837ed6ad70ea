-- ===== src/Statctl/Watch/Quiet.antt =====
-- The subcommands that show rollouts write nothing.
use statgate.Prelude.{Bool, true, false, String, Option, none, some, List, [], ◌∷◌, ◌⊎◌, inl, inr}
use statgate.Float64.{Float64}
use statgate.Api.{CanaryRollout}
use statgate.Actions.{Error}
use statgate.Actions.Rules.{
  Ensures-pure, Ensures-lift, Ensures-perform, Ensures-attempt, Ensures-bind,
}
use statgate.Effects.{Env, Flags, fetch_rollout, now}
use statgate.Statctl.Client.{open_client-Ensures}
use statgate.Statctl.Commands.Edits.{parse-Ensures}
use statgate.Statctl.SprtPanel.Drawn.{IsDrawn}
use statgate.Statctl.Dashboard.Drawn.{render_rollout-IsDrawn}
use statgate.Statctl.Reads.{cmd_list, cmd_get}
use statgate.Statctl.Reads.Silent.{IsQuiet, IsQuiet-bind, cmd_list-IsQuiet, cmd_get-IsQuiet}
use statgate.Statctl.Watch.{Event, tick, done, frame, fetched, clear, render, watch_loop, cmd_watch}

module _ {F V : Type 0} ⦃fl : Float64 F⦄ (env : Env F V) where
  module _ (flags : Flags) (name : String) where
    frame-IsQuiet : (o : Option (List String)) → IsDrawn o → IsQuiet (frame env flags name o)
    unfolding frame
    frame-IsQuiet none (ls, e) = absurd (cc)
    frame-IsQuiet (some ls) d = Ensures-pure _ tt

    fetched-IsQuiet : (a : Error ⊎ CanaryRollout F) → IsQuiet (fetched env flags name a)
    unfolding fetched now
    fetched-IsQuiet (inl e) = Ensures-pure _ tt
    fetched-IsQuiet (inr r) =
        IsQuiet-bind _ _ (Ensures-perform _ _ tt (λ h a e. tt))
          λ t. frame-IsQuiet _ (render_rollout-IsDrawn env r t)

    clear-IsQuiet : (first : Bool) → IsQuiet (clear env flags name first)
    unfolding clear
    clear-IsQuiet true = Ensures-perform _ _ tt (λ h a e. tt)
    clear-IsQuiet false = Ensures-pure _ tt

    render-IsQuiet : (first : Bool) → IsQuiet (render env flags name first)
    unfolding render fetch_rollout
    render-IsQuiet first =
        Ensures-bind _ _
          (Ensures-attempt {Q = λ _. Unit {0}} _ (Ensures-perform _ _ tt (λ h a e. tt)))
          λ answer _. IsQuiet-bind _ _ (fetched-IsQuiet answer) λ text.
            IsQuiet-bind _ _ (clear-IsQuiet first) λ _.
              IsQuiet-bind _ _ (Ensures-perform _ _ tt (λ h a e. tt)) λ _.
                IsQuiet-bind _ _ (Ensures-perform _ _ tt (λ h a e. tt))
                  λ _. Ensures-perform _ _ tt (λ h a e. tt)

    watch_loop-IsQuiet : (events : List Event) → IsQuiet (watch_loop env flags name events)
    unfolding watch_loop
    watch_loop-IsQuiet [] = Ensures-pure _ tt
    watch_loop-IsQuiet (done ∷ events) =
        IsQuiet-bind _ _ (Ensures-perform _ _ tt (λ h a e. tt)) λ _. Ensures-pure _ tt
    watch_loop-IsQuiet (tick ∷ events) =
        IsQuiet-bind _ _ (render-IsQuiet false) λ _. watch_loop-IsQuiet events

  cmd_watch-IsQuiet :
      (events : List Event) (args : List String) → IsQuiet (cmd_watch env events args)
  unfolding cmd_watch
  cmd_watch-IsQuiet events args = IsQuiet-bind _ _ (parse-Ensures env "watch" args) λ parsed.
      IsQuiet-bind _ _ (Ensures-lift _ (λ a e. tt)) λ name.
        IsQuiet-bind _ _ (open_client-Ensures env _ (λ c. tt)) λ _.
          IsQuiet-bind _ _ (render-IsQuiet parsed.flags name true)
            λ _. watch_loop-IsQuiet parsed.flags name events

  -- `list`, `get` and `watch` make no write to the API server, and do not panic, whatever the arguments
  -- and the answers are, and however long `watch` goes on.
  pub shows-IsQuiet :
      (args : List String) (events : List Event)
      → IsQuiet (cmd_list env args)
        × IsQuiet (cmd_get env args)
        × IsQuiet (cmd_watch env events args)
  shows-IsQuiet args events =
      (cmd_list-IsQuiet env args, cmd_get-IsQuiet env args, cmd_watch-IsQuiet events args)

-- ===== src/Statctl/Watch/Polls.antt =====
-- How often `watch` asks for the rollout, and how it ends.
use statgate.Prelude.{
  ℕ, zero, suc, Bool, true, false, String, Option, none, some, List, ◌∷◌, ◌⊎◌, inl, inr, ◌≡◌, refl,
  ◌+◌, arith, ◌∙◌,
}
use statgate.Float64.{Float64}
use statgate.Api.{CanaryRollout}
use statgate.Actions.{Error, Result, ok, pure, lift, perform, ◌>>=◌, continue-ok}
use statgate.Actions.Count.{total}
use statgate.Actions.Exact.{Exactly, Exactly-pure, Exactly-perform, Exactly-bind, Exactly-tried}
use statgate.Effects.{Env, Call, History, Flags, fetch_rollout, now, get_rollout, print, connect}
use statgate.Statctl.Args.{split_args}
use statgate.Statctl.Client.{chosen_config, open_client}
use statgate.Statctl.Commands.{parse}
use statgate.Statctl.SprtPanel.Drawn.{IsDrawn}
use statgate.Statctl.Dashboard.Drawn.{render_rollout-IsDrawn}
use statgate.Statctl.Watch.{
  Event, tick, done, Watching, returned, frame, fetched, clear, render, watch_loop, cmd_watch,
}

abbrev pub is_poll : {F V : Type 0} → Call F V → ℕ
is_poll (get_rollout key) = 1
is_poll _ = 0

-- Some ticks, and then the other events.
abbrev pub ticks : ℕ → List Event → List Event
ticks zero events = events
ticks (suc n) events = tick ∷ ticks n events

module _ {F V : Type 0} ⦃fl : Float64 F⦄ (env : Env F V) where
  module _ (flags : Flags) (name : String) where
    frame_silent :
        (o : Option (List String)) → IsDrawn o → Exactly is_poll 0 (frame env flags name o)
    unfolding frame
    frame_silent none (ls, e) = absurd (cc)
    frame_silent (some ls) d = Exactly-pure is_poll _

    fetched_silent : (a : Error ⊎ CanaryRollout F) → Exactly is_poll 0 (fetched env flags name a)
    unfolding fetched now
    fetched_silent (inl e) = Exactly-pure is_poll _
    fetched_silent (inr r) =
        Exactly-bind is_poll 0 0 _ _ (Exactly-perform is_poll _ _)
          λ t. frame_silent _ (render_rollout-IsDrawn env r t)

    clear_silent : (first : Bool) → Exactly is_poll 0 (clear env flags name first)
    unfolding clear
    clear_silent true = Exactly-perform is_poll _ _
    clear_silent false = Exactly-pure is_poll _

    render_once : (first : Bool) → Exactly is_poll 1 (render env flags name first)
    unfolding render fetch_rollout
    render_once first = Exactly-bind is_poll 1 0 _ _ (Exactly-tried is_poll _ _) λ answer.
        Exactly-bind is_poll 0 0 _ _ (fetched_silent answer) λ text.
          Exactly-bind is_poll 0 0 _ _ (clear_silent first) λ _.
            Exactly-bind is_poll 0 0 _ _ (Exactly-perform is_poll _ _) λ _.
              Exactly-bind is_poll 0 0 _ _ (Exactly-perform is_poll _ _)
                λ _. Exactly-perform is_poll _ _

    -- A loop that returned with the cursor restored, after some polls.
    abbrev IsOver : ℕ → History F V → Result Watching × History F V → Type 0
    IsOver n h r =
        (h' : History F V) × (r ≡ (ok returned, print "\u{1b}[?25h" ∷ h'))
        × (total is_poll h' ≡ n + total is_poll h)

    watch_loop-IsOver :
        (n : ℕ) (events : List Event) (h : History F V)
        → IsOver n h (watch_loop env flags name (ticks n (done ∷ events)) h)
    unfolding watch_loop perform pure ◌>>=◌
    watch_loop-IsOver zero events h = (h, refl, omega arith)
    watch_loop-IsOver (suc n) events h =
        let e = (render_once false).at h in
        let (h', over, polls) = watch_loop-IsOver n events (render env flags name false h).1 in
        (
          h',
          continue-ok _ (render env flags name false h) e.value e.returned ∙ over,
          omega (arith, polls, e.counted),
        )

  -- Where the flags parse, a name is given and the client is made, `watch` returns when the context is
  -- done, whatever the API server answers: it has asked for the rollout once, and once more for each tick
  -- before, and its last call restores the cursor.
  pub cmd_watch_ends :
      (args : List String) (h : History F V) (flags : Flags) (name : String) (names : List String)
      (n : ℕ) (events : List Event)
      → env.parse_flags "watch" (split_args args).0 ≡ inr flags
      → (split_args args).1 ≡ name ∷ names
      → open_client env flags.kubeconfig h
        ≡ (ok tt, connect (chosen_config env flags.kubeconfig) ∷ h)
      → (h' : History F V) × (cmd_watch env (ticks n (done ∷ events)) args h
          ≡ (ok returned, print "\u{1b}[?25h" ∷ h'))
        × (total is_poll h' ≡ n + 1 + total is_poll h)
  unfolding cmd_watch parse perform pure lift ◌>>=◌
  cmd_watch_ends args h flags name names n events parsed named joined =
      let h₁ : History F V = connect (chosen_config env flags.kubeconfig) ∷ h in
      let e = (render_once flags name true).at h₁ in
      let (h', over, polls) =
        watch_loop-IsOver flags name n events (render env flags name true h₁).1 in
      (
        h',
        rw (parsed, named, joined)
            (continue-ok _ (render env flags name true h₁) e.value e.returned ∙ over),
        omega (arith, polls, e.counted),
      )

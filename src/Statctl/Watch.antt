-- ===== src/Statctl/Watch.antt =====
-- cmd/statctl/watch.go: the live dashboard.
pub mod Polls
pub mod Quiet
use statgate.Prelude.{
  ℤ, pos, Bool, true, false, String, Option, none, some, List, [], ◌∷◌, ◌⊎◌, inl, inr, ltb_ℤ, ◌*ℤ◌,
  wrap64, if◌then◌else◌, ◌+s◌,
}
use statgate.Float64.{Float64}
use statgate.Api.{CanaryRollout}
use statgate.Actions.{Error, crash, lift, perform, pure, attempt, ◌>>=◌, ◌>>◌}
use statgate.Effects.{ObjectKey, Env, M, Flags, fetch_rollout, now}
use statgate.Statctl.Dashboard.{render_rollout}
use statgate.Statctl.Commands.{first_name, say, parse}
use statgate.Statctl.Client.{open_client}
use statgate.Statctl.Reads.{unlines}

-- What the loop's `select` receives: a tick, or that the context is done.
pub data Event : Type 0 where
  tick done : Event

-- A loop that waits for its next event, or one that has returned.
pub data Watching : Type 0 where
  waiting returned : Watching

-- The refresh interval, which is a second at least.
abbrev refresh_of : ℤ → ℤ
refresh_of seconds =
    let refresh = wrap64 (seconds *ℤ pos 1000000000) in
    if ltb_ℤ refresh (pos 1000000000) then pos 1000000000 else refresh

module _ {F V : Type 0} ⦃fl : Float64 F⦄ (env : Env F V) (flags : Flags) (name : String) where
  footer : String
  footer =
      "\n(refreshing every "
      +s env.duration_text (refresh_of flags.interval)
      +s " — press Ctrl+C to exit)\n"

  -- The text of the buffer, where `none` is a panic.
  frame : Option (List String) → M F V String
  unfolding footer
  frame none = crash
  frame (some ls) = pure (unlines ls +s footer)

  fetched : Error ⊎ CanaryRollout F → M F V String
  unfolding footer frame
  fetched (inl e) = pure (
      "error fetching "
      +s flags.namespace
      +s "/"
      +s name
      +s ": "
      +s env.error_text e
      +s "\n"
      +s footer)
  fetched (inr r) = do reading ← now env; frame (render_rollout env r reading)

  -- The screen is cleared before the first frame only.
  clear : Bool → M F V (Unit {0})
  clear true = say env "\u{1b}[2J"
  clear false = pure tt

  -- `render`
  pub render : Bool → M F V (Unit {0})
  unfolding fetched clear
  render first = do
    answer ← attempt (fetch_rollout env (record { namespace = flags.namespace; name = name }))
    text ← fetched answer
    clear first
    say env "\u{1b}[H"
    say env text
    say env "\u{1b}[J"

  pub watch_loop : List Event → M F V Watching
  unfolding render
  watch_loop [] = pure waiting
  watch_loop (done ∷ events) = say env "\u{1b}[?25h" >> pure returned
  watch_loop (tick ∷ events) = render false >> watch_loop events

-- By what the loop receives, in its order.
unfoldable pub cmd_watch :
    {F V : Type 0} → ⦃fl : Float64 F⦄ → Env F V → List Event → List String → M F V Watching
cmd_watch env events args = do
  parsed ← parse env "watch" args
  name ← lift (first_name "watch" parsed.positional)
  open_client env parsed.flags.kubeconfig
  render env parsed.flags name true
  watch_loop env parsed.flags name events

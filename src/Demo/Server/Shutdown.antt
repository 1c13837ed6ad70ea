-- ===== src/Demo/Server/Shutdown.antt =====
-- How the application ends.
use statgate.Prelude.{
  ℕ, Bool, Option, none, some, List, [], ◌∷◌, ◌⊎◌, inl, inr, ◌≡◌, refl, if◌then◌else◌, Bool-cases,
}
use statgate.Float64.{Float64}
use statgate.Actions.{Error, Result, ok, pure, perform, attempt, ◌>>=◌}
use statgate.Demo.Calls.{DemoCall, DemoEnv, listen, shut_down, close_connection}
use statgate.Demo.Handlers.{App}
use statgate.Demo.Server.{
  ServerEvent, listen_failed, server_closed, signalled, address, grace, start_app, close_db,
  after_shut_down, wait_for_quit, run_server, run_app,
}

-- The event that ends the waiting: a server that is closed does not.
abbrev pub first_event : List ServerEvent → Option ServerEvent
first_event [] = none
first_event (server_closed ∷ events) = first_event events
first_event (e ∷ events) = some e

-- The exit code and the calls, by that event and what the shutdown answers.
abbrev pub ending :
    {F : Type 0}
    → Bool
    → Option ServerEvent
    → Error ⊎ Unit {0}
    → List (DemoCall F)
    → Result (Option ℕ) × List (DemoCall F)
ending has_db none answer h = (ok none, h)
ending has_db (some server_closed) answer h = (ok none, h)
ending has_db (some (listen_failed e)) answer h = (ok (some 1), h)
ending has_db (some signalled) (inl e) h = (ok (some 1), shut_down grace ∷ h)
ending has_db (some signalled) (inr _) h =
    (ok (some 0), if has_db then close_connection ∷ shut_down grace ∷ h else shut_down grace ∷ h)

module _ {F : Type 0} ⦃fl : Float64 F⦄ (env : DemoEnv F) where
  shut_down-ending :
      (app : App F) (answer : Error ⊎ Unit {0}) (h : List (DemoCall F))
      → after_shut_down env app answer (shut_down grace ∷ h)
        ≡ ending app.has_db (some signalled) answer h
  unfolding after_shut_down close_db pure perform ◌>>=◌
  shut_down-ending app (inl e) h = refl
  shut_down-ending app (inr _) h = elim (Bool-cases app.has_db) [
    | inl held ↦ rw held refl
    | inr without ↦ rw without refl
  ]

  quit_ending :
      (app : App F) (answer : Error ⊎ Unit {0}) (h : List (DemoCall F))
      → env.shut_down_at h ≡ answer
      → wait_for_quit env app (signalled ∷ []) h ≡ ending app.has_db (some signalled) answer h
  unfolding wait_for_quit perform attempt ◌>>=◌
  quit_ending app (inl e) h answers = rw answers (shut_down-ending app (inl e) h)
  quit_ending app (inr _) h answers = rw answers (shut_down-ending app (inr tt) h)

  waiting :
      (app : App F) (events : List ServerEvent) (h : List (DemoCall F))
      → wait_for_quit env app events h
        ≡ ending app.has_db (first_event events) (env.shut_down_at h) h
  unfolding wait_for_quit pure
  waiting app [] h = refl
  waiting app (listen_failed e ∷ events) h = refl
  waiting app (server_closed ∷ events) h = waiting app events h
  waiting app (signalled ∷ events) h = quit_ending app _ h refl

  -- An application that has started listens, and goes on while nothing happens or its server is closed.
  -- If the server fails to listen it ends with 1. At a signal it shuts the server down: if that succeeds it
  -- ends with 0 after closing the database, if it has one, else it ends with 1 and leaves the database
  -- open.
  pub run_app_ends :
      (events : List ServerEvent) (h h' : List (DemoCall F)) (app : App F)
      → start_app env h ≡ (ok app, h')
      → run_app env events h
        ≡ ending app.has_db
            (first_event events)
            (env.shut_down_at (listen address ∷ h'))
            (listen address ∷ h')
  unfolding run_app run_server perform attempt ◌>>=◌
  run_app_ends events h h' app started = rw started (waiting app events (listen address ∷ h'))

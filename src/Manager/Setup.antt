-- ===== src/Manager/Setup.antt =====
-- When the manager is started, and the exit code.
use statgate.Prelude.{ℕ, List, [], ◌∷◌, ◌⊎◌, inl, inr, ◌≡◌, refl, arith}
use statgate.Actions.{Error, Result, ok, pure, perform, attempt, ◌>>=◌}
use statgate.Actions.Count.{total}
use statgate.Manager.{
  SetupCall, register_kinds, add_client_types, add_types, parse_flags, set_logger, get_config,
  new_manager, complete_controller, add_healthz_check, add_readyz_check, start_manager, log_error,
  SetupEnv, unless_failed, FlagValues, group_version, declared_flags, manager_options, init_types,
  init_scheme, must, setup_with_manager, set_up, manager_main, program,
}

abbrev pub is_start : SetupCall → ℕ
is_start start_manager = 1
is_start _ = 0

-- The calls of the program, up to each step.
abbrev registered : List SetupCall → List SetupCall
registered h = register_kinds group_version ("CanaryRollout" ∷ "CanaryRolloutList" ∷ []) ∷ h

abbrev pub initialised : List SetupCall → List SetupCall
initialised h = add_types group_version ∷ add_client_types ∷ registered h

abbrev pub configured : List SetupCall → List SetupCall
configured h = get_config ∷ set_logger ∷ parse_flags declared_flags ∷ initialised h

abbrev pub made : FlagValues → List SetupCall → List SetupCall
made values h = new_manager (manager_options values) ∷ configured h

abbrev pub completed : FlagValues → List SetupCall → List SetupCall
completed values h = complete_controller "CanaryRollout" ∷ made values h

abbrev pub healthy : FlagValues → List SetupCall → List SetupCall
healthy values h = add_healthz_check "healthz" ∷ completed values h

abbrev pub ready : FlagValues → List SetupCall → List SetupCall
ready values h = add_readyz_check "readyz" ∷ healthy values h

-- What `Start` leaves.
abbrev pub started : Error ⊎ Unit {0} → List SetupCall → Result ℕ × List SetupCall
started (inl e) h = (ok 1, log_error "problem running manager" ∷ start_manager ∷ h)
started (inr _) h = (ok 0, start_manager ∷ h)

module _ (env : SetupEnv) where
  -- The schemes are complete, the flags parse and a configuration is found.
  pub record IsConfigured (values : FlagValues) (h : List SetupCall) : Type 0 where
    pub client_types : env.client_types_added (registered h) ≡ inr tt
    pub types : env.types_added (add_client_types ∷ registered h) group_version ≡ inr tt
    pub flags : env.parsed (initialised h) declared_flags ≡ inr values
    pub config : env.config_found (set_logger ∷ parse_flags declared_flags ∷ initialised h) ≡ inr tt

  -- The manager, the controller and both checks are set up.
  pub record IsSetUp (values : FlagValues) (h : List SetupCall) : Type 0 where
    pub manager : env.manager_made (configured h) (manager_options values) ≡ inr tt
    pub controller : env.controller_completed (made values h) "CanaryRollout" ≡ inr tt
    pub health : env.healthz_added (completed values h) "healthz" ≡ inr tt
    pub readiness : env.readyz_added (healthy values h) "readyz" ≡ inr tt

  -- The two ends of the program.
  abbrev pub Ends : FlagValues → List SetupCall → Type 0
  Ends values h =
      (IsSetUp values h
        × (program env h ≡ started (env.manager_ended (ready values h)) (ready values h)))
      ⊎ ((¬ IsSetUp values h)
          × ((program env h).0 ≡ ok 1)
          × (total is_start (program env h).1 ≡ total is_start h))

  module _ (values : FlagValues) (h : List SetupCall) (c : IsConfigured values h) where
    main_part :
        program env h
        ≡ (attempt (
                perform
                  (new_manager (manager_options values))
                  (λ h'. env.manager_made h' (manager_options values)))
              >>= λ m. unless_failed "unable to start manager" m (set_up env))
            (configured h)
    unfolding program init_types init_scheme manager_main must pure perform attempt ◌>>=◌
    main_part = rw (c.client_types, c.types, c.flags, c.config) refl

    by_answers :
        (a b d e f : Error ⊎ Unit {0})
        → env.manager_made (configured h) (manager_options values) ≡ a
        → env.controller_completed (made values h) "CanaryRollout" ≡ b
        → env.healthz_added (completed values h) "healthz" ≡ d
        → env.readyz_added (healthy values h) "readyz" ≡ e
        → env.manager_ended (ready values h) ≡ f
        → Ends values h
    unfolding set_up setup_with_manager pure perform attempt ◌>>=◌
    by_answers (inl x) b d e f p q r s t =
        rw main_part (rw p (inr (λ u. absurd (ground (arith, p, u.manager)), refl, omega arith)))
    by_answers (inr _) (inl x) d e f p q r s t =
        rw main_part
          (rw (p, q) (inr (λ u. absurd (ground (arith, q, u.controller)), refl, omega arith)))
    by_answers (inr _) (inr _) (inl x) e f p q r s t =
        rw main_part
          (rw (p, q, r) (inr (λ u. absurd (ground (arith, r, u.health)), refl, omega arith)))
    by_answers (inr _) (inr _) (inr _) (inl x) f p q r s t =
        rw main_part
          (rw (p, q, r, s) (inr (λ u. absurd (ground (arith, s, u.readiness)), refl, omega arith)))
    by_answers (inr _) (inr _) (inr _) (inr _) (inl x) p q r s t = rw main_part (
        rw (p, q, r, s, t)
          (inl (record { manager = p; controller = q; health = r; readiness = s }, refl)))
    by_answers (inr _) (inr _) (inr _) (inr _) (inr _) p q r s t = rw main_part (
        rw (p, q, r, s, t)
          (inl (record { manager = p; controller = q; health = r; readiness = s }, refl)))

    -- Where the types are registered, the flags parse and a configuration is found: if the manager, the
    -- controller and both checks can be set up, the program starts the manager as its last step, after
    -- them and with the options of the flags, and ends with the code 0, or 1 and a logged error, as the
    -- manager ends. If one of them cannot, the code is 1 and the manager is never started.
    pub program-Ends : Ends values h
    program-Ends = by_answers _ _ _ _ _ refl refl refl refl refl

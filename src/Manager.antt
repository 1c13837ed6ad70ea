-- ===== src/Manager.antt =====
-- cmd/main.go: the entry point of the controller's manager, with `SetupWithManager` of
-- internal/controller/reconciler.go and the registration of the types in api/v1alpha1.
pub mod Setup
use statgate.Prelude.{ℕ, Bool, false, String, List, [], ◌∷◌, ◌⊎◌, inl, inr}
use statgate.Actions.{Error, Action, pure, crash, perform, attempt, ◌>>=◌, ◌>>◌}

pub record GroupVersion : Type 0 where
  pub group : String
  pub version : String

abbrev pub group_version : GroupVersion
group_version = record { group = "statgate.io"; version = "v1alpha1" }

-- A flag as it is declared: its name, its default and its text.
pub data Flag : Type 0 where
  text_flag : String → String → String → Flag
  switch_flag : String → Bool → String → Flag

-- The three variables after `flag.Parse`.
pub record FlagValues : Type 0 where
  pub metrics_addr : String
  pub probe_addr : String
  pub enable_leader_election : Bool

-- `ctrl.Options`; the scheme is the one that the types were added to.
pub record Options : Type 0 where
  pub metrics_bind_address : String
  pub health_probe_bind_address : String
  pub leader_election : Bool
  pub leader_election_id : String

-- The calls to the libraries.
pub data SetupCall : Type 0 where
  register_kinds : GroupVersion → List String → SetupCall
  add_client_types : SetupCall
  add_types : GroupVersion → SetupCall
  parse_flags : List Flag → SetupCall
  set_logger get_config : SetupCall
  new_manager : Options → SetupCall
  complete_controller : String → SetupCall
  add_healthz_check add_readyz_check : String → SetupCall
  start_manager : SetupCall
  log_error : String → SetupCall

abbrev pub Setup : Type 0 → Type 0
Setup A = Action SetupCall A

-- The answers, by all calls before. `flag.Parse` and `GetConfigOrDie` may end the program themselves,
-- with an exit code.
pub record SetupEnv : Type 0 where
  pub client_types_added : List SetupCall → Error ⊎ Unit {0}
  pub types_added : List SetupCall → GroupVersion → Error ⊎ Unit {0}
  pub parsed : List SetupCall → List Flag → ℕ ⊎ FlagValues
  pub config_found : List SetupCall → ℕ ⊎ Unit {0}
  pub manager_made : List SetupCall → Options → Error ⊎ Unit {0}
  pub controller_completed : List SetupCall → String → Error ⊎ Unit {0}
  pub healthz_added : List SetupCall → String → Error ⊎ Unit {0}
  pub readyz_added : List SetupCall → String → Error ⊎ Unit {0}
  pub manager_ended : List SetupCall → Error ⊎ Unit {0}

abbrev pub tell : SetupCall → Setup (Unit {0})
tell c = perform c (λ h. inr tt)

-- A call whose answer is an exit code or a value.
abbrev pub ask : {A : Type 0} → SetupCall → (List SetupCall → A) → Setup A
ask c answer = perform c (λ h. inr (answer h))

-- `utilruntime.Must`
must : Error ⊎ Unit {0} → Setup (Unit {0})
must (inl e) = crash
must (inr _) = pure tt

-- The program ends with the code, or goes on.
abbrev pub unless_ended : {A : Type 0} → ℕ ⊎ A → (A → Setup ℕ) → Setup ℕ
unless_ended (inl code) rest = pure code
unless_ended (inr a) rest = rest a

-- `if err := ...; err != nil { logger.Error(err, text); os.Exit(1) }`
abbrev pub unless_failed : String → Error ⊎ Unit {0} → Setup ℕ → Setup ℕ
unless_failed text (inl e) rest = tell (log_error text) >> pure 1
unless_failed text (inr _) rest = rest

abbrev pub declared_flags : List Flag
declared_flags =
    text_flag "metrics-bind-address" ":8080" "The address the metric endpoint binds to."
    ∷ text_flag "health-probe-bind-address" ":8081" "The address the probe endpoint binds to."
    ∷ switch_flag "leader-elect" false "Enable leader election for controller manager."
    ∷ []

abbrev pub manager_options : FlagValues → Options
manager_options values = record {
  metrics_bind_address = values.metrics_addr;
  health_probe_bind_address = values.probe_addr;
  leader_election = values.enable_leader_election;
  leader_election_id = "statgate-leader-election";
}

module _ (env : SetupEnv) where
  -- `init` of api/v1alpha1/types.go
  init_types : Setup (Unit {0})
  init_types = tell (register_kinds group_version ("CanaryRollout" ∷ "CanaryRolloutList" ∷ []))

  -- `init` of cmd/main.go
  init_scheme : Setup (Unit {0})
  unfolding must
  init_scheme = do
    client ← attempt (perform add_client_types (λ h. env.client_types_added h))
    must client
    own ← attempt (perform (add_types group_version) (λ h. env.types_added h group_version))
    must own

  -- `SetupWithManager`
  setup_with_manager : Setup (Unit {0})
  setup_with_manager =
      perform (complete_controller "CanaryRollout")
        (λ h. env.controller_completed h "CanaryRollout")

  -- From `SetupWithManager` on.
  set_up : Setup ℕ
  unfolding setup_with_manager
  set_up = do
    completed ← attempt setup_with_manager
    unless_failed "unable to create controller" completed (do
      healthy ← attempt (perform (add_healthz_check "healthz") (λ h. env.healthz_added h "healthz"))
      unless_failed "unable to set up health check" healthy (do
        ready ← attempt (perform (add_readyz_check "readyz") (λ h. env.readyz_added h "readyz"))
        unless_failed "unable to set up ready check" ready (do
          ended ← attempt (perform start_manager (λ h. env.manager_ended h))
          unless_failed "problem running manager" ended (pure 0))))

  -- `main`, by its exit code.
  manager_main : Setup ℕ
  unfolding set_up
  manager_main = do
    flags ← ask (parse_flags declared_flags) (λ h. env.parsed h declared_flags)
    unless_ended flags (λ values. do
      tell set_logger
      config ← ask get_config (λ h. env.config_found h)
      unless_ended config (λ _. do
        made ← attempt (
            perform (new_manager (manager_options values))
              (λ h. env.manager_made h (manager_options values)))
        unless_failed "unable to start manager" made set_up))

  -- The program: the initialisation of the packages, then `main`.
  unfoldable pub program : Setup ℕ
  unfolding init_types init_scheme manager_main
  program = do init_types; init_scheme; manager_main

-- ===== src/Tests/Manager.antt =====
-- The manager where every step succeeds, and its run ends with an error.
use statgate.Prelude.{false, [], inl, inr, refl}
use statgate.Actions.{failure}
use statgate.Manager.{SetupEnv, FlagValues}
use statgate.Manager.Setup.{IsConfigured, Ends, program-Ends}

abbrev values : FlagValues
values = record { metrics_addr = ":8080"; probe_addr = ":8081"; enable_leader_election = false }

abbrev env : SetupEnv
env = record {
  client_types_added = λ h. inr tt;
  types_added = λ h gv. inr tt;
  parsed = λ h flags. inr values;
  config_found = λ h. inr tt;
  manager_made = λ h options. inr tt;
  controller_completed = λ h kind. inr tt;
  healthz_added = λ h name. inr tt;
  readyz_added = λ h name. inr tt;
  manager_ended = λ h. inl (failure "leader election lost");
}

configured : IsConfigured env values []
configured = record { client_types = refl; types = refl; flags = refl; config = refl }

program-Ends_example : Ends env values []
program-Ends_example = program-Ends env values [] configured

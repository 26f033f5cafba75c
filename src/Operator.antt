-- ===== src/Operator.antt =====
-- cmd/operator/main.go: the start of the operator, and `SetupWithManager` of
-- pkg/controllers/idlingresource_controller.go, by which the reconcile loop is registered.
pub mod Process
pub mod Gives
pub mod Ready
pub mod Laws
use kidle.Prelude.{ℕ, String, Bool, false, List, [], ◌∷◌}
use kidle.Exec.{Exec}
use kidle.Api.Registration.{GroupVersion, group_version, registered_types}
use Process.{ProcessState, Proc, going_on, calls, logs, or_exit, must, ◌>>=◌, ◌>>◌}

-- The values of the flags.
pub record Flags : Type 0 where
  pub metrics_addr : String
  pub probe_addr : String
  pub enable_leader_election : Bool
  pub kidlectl_image : String

-- Their defaults.
abbrev pub default_flags : Flags
default_flags = record {
  metrics_addr = ":8080";
  probe_addr = ":8081";
  enable_leader_election = false;
  kidlectl_image = "kidledev/kidlectl:main";
}

-- `ctrl.Options`
pub record ManagerOptions : Type 0 where
  pub metrics_bind_address : String
  pub port : ℕ
  pub health_probe_bind_address : String
  pub leader_election : Bool
  pub leader_election_id : String

abbrev pub manager_options : Flags → ManagerOptions
manager_options flags = record {
  metrics_bind_address = flags.metrics_addr;
  port = 9443;
  health_probe_bind_address = flags.probe_addr;
  leader_election = flags.enable_leader_election;
  leader_election_id = "d2ebac05.kidle.dev";
}

-- The types of objects that the controller is told of.
pub data Kind : Type 0 where
  idling_resource cron_job service_account role role_binding deployment stateful_set : Kind

-- What the code hands to the builder of the controller: the type that it is for, the types whose
-- objects it owns, and those whose events the mapper turns into requests.
pub record Builder : Type 0 where
  pub for_type : Kind
  pub owns : List Kind
  pub watches : List Kind

-- `IdlingResourceReconciler`; the client and the scheme are the manager's.
pub record IdlingResourceReconciler (Manager : Type 0) : Type 0 where
  pub manager : Manager
  pub log_names : List String
  pub event_recorder_name : String
  pub kidlectl_image : String

-- The libraries: the scheme, the flags, `ctrl.GetConfigOrDie`, the manager and the builder's
-- `Complete`.
pub record Runtime (S Config Manager : Type 0) : Type 0 where
  pub add_client_go_types : Exec S (Unit {0})
  pub add_types : GroupVersion → List String → Exec S (Unit {0})
  pub parse_flags : Flags → Proc S Flags
  pub get_config_or_die : Proc S Config
  pub new_manager : Config → ManagerOptions → Exec S Manager
  pub complete : Manager → Builder → IdlingResourceReconciler Manager → Exec S (Unit {0})
  pub add_healthz_check : Manager → String → Exec S (Unit {0})
  pub add_readyz_check : Manager → String → Exec S (Unit {0})
  pub start : Manager → Exec S (Unit {0})

-- The builder of `SetupWithManager`; its event filter is `Watch.update`, and the mapper is
-- `Watch.object_for_idling_resource_mapper`.
abbrev pub controller_builder : Builder
controller_builder = record {
  for_type = idling_resource;
  owns = cron_job ∷ service_account ∷ role ∷ role_binding ∷ [];
  watches = deployment ∷ stateful_set ∷ cron_job ∷ [];
}

-- The reconciler that `main` makes.
abbrev pub reconciler_of : {Manager : Type 0} → Flags → Manager → IdlingResourceReconciler Manager
reconciler_of flags manager = record {
  manager = manager;
  log_names = "controllers" ∷ "IdlingResource" ∷ [];
  event_recorder_name = "idlingresource-controller";
  kidlectl_image = flags.kidlectl_image;
}

module _ {S Config Manager : Type 0} (runtime : Runtime S Config Manager) where
  -- `SetupWithManager`
  unfoldable pub setup_with_manager : IdlingResourceReconciler Manager → Manager → Exec S (Unit {0})
  setup_with_manager r manager = runtime.complete manager controller_builder r

  -- `init`
  unfoldable pub init : Proc (ProcessState S) (Unit {0})
  init = do
    must runtime.add_client_go_types
    must (runtime.add_types group_version registered_types)

  -- The part of `main` that sets the manager up.
  unfoldable pub set_up : Flags → Config → Proc (ProcessState S) Manager
  unfolding setup_with_manager
  set_up flags config = do
    manager ← or_exit "unable to start manager" (runtime.new_manager config (manager_options flags))
    or_exit "unable to create controller" (setup_with_manager (reconciler_of flags manager) manager)
    or_exit "unable to set up health check" (runtime.add_healthz_check manager "healthz")
    or_exit "unable to set up ready check" (runtime.add_readyz_check manager "readyz")
    going_on manager

  -- `main`, up to its last statement.
  unfoldable pub prepare : Proc (ProcessState S) Manager
  unfolding init set_up
  prepare = do
    init
    flags ← calls (runtime.parse_flags default_flags)
    config ← calls runtime.get_config_or_die
    set_up flags config

  -- `main`
  unfoldable pub main : Proc (ProcessState S) (Unit {0})
  unfolding prepare
  main = do
    manager ← prepare
    logs "starting manager"
    or_exit "problem running manager" (runtime.start manager)

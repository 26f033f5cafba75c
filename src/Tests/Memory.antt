-- ===== src/Tests/Memory.antt =====
-- An API server in memory whose next writes may meet conflicts, with the laws that the development
-- assumes of the real one.
use kidle.Prelude.{◌≡◌, refl, Option, none, some}
use kidle.Exec.{ok}
use kidle.Meta.{MetaObject}
use kidle.Objects.{
  workload_object, cron_job_object, service_account_object, role_object, role_binding_object,
}
use kidle.Api.{idling_resource_object}
use kidle.Cluster.{
  Client, Slot, IsLawful, idling_resource_slot, deployment_slot, stateful_set_slot, cron_job_slot,
  service_account_slot, role_slot, role_binding_slot,
}
use kidle.Cluster.Responsive.{IsResponsive}
pub use kidle.Tests.Store.{Memory, view}
use kidle.Tests.Store.{found, object_client, object_client-IsLawful}

abbrev pub client : Client Memory
client = record {
  idling_resources = object_client idling_resource_object idling_resource_slot;
  deployments = object_client workload_object deployment_slot;
  stateful_sets = object_client workload_object stateful_set_slot;
  cron_jobs = object_client cron_job_object cron_job_slot;
  service_accounts = object_client service_account_object service_account_slot;
  roles = object_client role_object role_slot;
  role_bindings = object_client role_binding_object role_binding_slot;
}

pub deployments-IsLawful : IsLawful view deployment_slot workload_object client.deployments
deployments-IsLawful =
    object_client-IsLawful workload_object deployment_slot (λ w. refl) (λ m w. refl)

pub cron_jobs-IsLawful : IsLawful view cron_job_slot cron_job_object client.cron_jobs
cron_jobs-IsLawful = object_client-IsLawful cron_job_object cron_job_slot (λ w. refl) (λ m w. refl)

pub idling_resources-IsLawful :
    IsLawful view idling_resource_slot idling_resource_object client.idling_resources
idling_resources-IsLawful =
    object_client-IsLawful idling_resource_object idling_resource_slot (λ w. refl) (λ m w. refl)

-- The next write is not refused.
abbrev pub Up : Memory → Type 0
Up w = w.conflicts ≡ 0

conflicts-found :
    {O : Type 0} (object : MetaObject O) (slot : Slot O) (w : Memory) (x : Option O)
    → (found object slot w x).1 ≡ w
conflicts-found object slot w none = refl
conflicts-found object slot w (some o) = refl

found_stored :
    {O : Type 0} (object : MetaObject O) (slot : Slot O) (w : Memory) (x : Option O) (o : O)
    → x ≡ some o
    → (found object slot w x).0 ≡ ok o
found_stored object slot w none o e = cc
found_stored object slot w (some p) o e = cc

pub deployments-IsResponsive :
    IsResponsive view deployment_slot workload_object client.deployments Up
deployments-IsResponsive = record {
  get-Up = λ k w up. rw (conflicts-found workload_object deployment_slot) up;
  get_stored = λ k w o up e. found_stored workload_object deployment_slot w _ o e;
  update-Up = λ o w up. rw up refl;
  update_stored = λ o old w up e. rw up refl;
}

pub service_accounts-IsLawful :
    IsLawful view service_account_slot service_account_object client.service_accounts
service_accounts-IsLawful =
    object_client-IsLawful service_account_object service_account_slot (λ w. refl) (λ m w. refl)

pub roles-IsLawful : IsLawful view role_slot role_object client.roles
roles-IsLawful = object_client-IsLawful role_object role_slot (λ w. refl) (λ m w. refl)

pub role_bindings-IsLawful :
    IsLawful view role_binding_slot role_binding_object client.role_bindings
role_bindings-IsLawful =
    object_client-IsLawful role_binding_object role_binding_slot (λ w. refl) (λ m w. refl)

pub stateful_sets-IsLawful : IsLawful view stateful_set_slot workload_object client.stateful_sets
stateful_sets-IsLawful =
    object_client-IsLawful workload_object stateful_set_slot (λ w. refl) (λ m w. refl)

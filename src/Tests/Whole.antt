-- ===== src/Tests/Whole.antt =====
-- A whole run of the reconcile loop on the server in memory, with a schedule for the idling.
use kidle.Prelude.{inl, ◌≡◌, refl, true, false, none, some, []}
use kidle.Exec.{ok}
use kidle.Array.{contains_string}
use kidle.Strconv.{itoa}
use kidle.Dns.{to_dns_name}
use kidle.Containers.{containers_to_map, set_container}
use kidle.Meta.{key_of, add_annotation, has_annotation}
use kidle.Api.{IdlingResource, is_being_deleted, has_finalizer}
use kidle.Cluster.{put, deployment_slot}
use kidle.Idler.Change.{change}
use kidle.Idler.Object.{set_reference, referenced}
use kidle.Idler.Replicas.{need_idle, need_wakeup, idled, idle}
use kidle.Controller.State.{World, finished}
use kidle.Controller.Finalizer.{add_finalizer}
use kidle.Controller.WithIdler.{reconcile_with_idler}
use kidle.Controller.CronStrategies.{
  create_cron_job, create_or_update_cron_job, reconcile_cron_strategies,
}
use kidle.Controller.CronStrategies.Values.{set_cron_job_values}
use kidle.Controller.CronStrategies.Rbac.{create_rbac}
use kidle.Controller.Reconcile.{reconcile, reconcile_found, dispatch, reconcile_workload}
use kidle.Controller.Reconcile.Elsewhere.{NamesOther, reconcile-elsewhere}
use kidle.Controller.Reconcile.Stands.{own_slot}
use kidle.Controller.Reconcile.Whole.{Served, reconcile-Served}
use kidle.Kidlectl.Client.{with_idle, apply_desired_idle_state}
use kidle.Kidlectl.Client.Effect.{reconcile-apply_desired_idle_state}
use kidle.Pointer.{new_variable, same_pointer, differs_from_new}
use kidle.Tests.Memory.{
  Memory, view, client, deployments-IsLawful, stateful_sets-IsLawful, cron_jobs-IsLawful,
  idling_resources-IsLawful, service_accounts-IsLawful, roles-IsLawful, role_bindings-IsLawful,
}
use kidle.Tests.Libraries.{libraries, libraries-IsDocumented}
use kidle.Tests.Data.{named, server, resource, settings, web}

-- To be idled each evening, and without the finalizer yet.
abbrev evening : IdlingResource
evening = record {
  meta = named "night";
  spec = record ((resource "Deployment" "web" true).spec) {
    idling_strategy = some (record {
      cron_strategy = some (record { schedule = "0 20 * * *" });
      inactive_strategy = none;
    });
  };
}

abbrev start : World Memory
start = record {
  cluster = record {
    stored = record (server.stored) {
      idling_resources = put (key_of (named "night")) (some evening) (λ k. none);
    };
    conflicts = 0;
  };
  events = [];
}

abbrev served : World Memory
served = (reconcile client libraries settings (key_of (named "night")) start).1

serves : reconcile client libraries settings (key_of (named "night")) start ≡ (ok finished, served)
unfolding reconcile reconcile_found has_finalizer contains_string add_finalizer
    reconcile_cron_strategies create_rbac create_or_update_cron_job create_cron_job
    set_cron_job_values to_dns_name containers_to_map set_container dispatch reconcile_workload
    reconcile_with_idler is_being_deleted set_reference change referenced has_annotation
    add_annotation need_wakeup need_idle idle idled itoa differs_from_new same_pointer new_variable
serves = refl

lives : is_being_deleted evening ≡ false
unfolding is_being_deleted
lives = refl

reconcile-Served_example :
    Served deployment_slot evening (view start.cluster) (view served.cluster) finished
reconcile-Served_example =
    reconcile-Served client libraries settings libraries-IsDocumented idling_resources-IsLawful
      deployments-IsLawful stateful_sets-IsLawful cron_jobs-IsLawful service_accounts-IsLawful
      roles-IsLawful role_bindings-IsLawful (key_of (named "night")) evening start served finished
      false refl refl lives serves

-- A StatefulSet with the name of the Deployment, and a conflict ahead.
abbrev twins : World Memory
twins = record {
  cluster = record {
    stored = record (start.cluster.stored) {
      stateful_sets = put (key_of web.meta) (some web) (λ k. none);
    };
    conflicts = 1;
  };
  events = [];
}

names_deployment :
    (i : IdlingResource) → some evening ≡ some i → NamesOther true (key_of web.meta) i
names_deployment i e = let same : evening ≡ i = cc in rw (← same) (inl refl)

reconcile-elsewhere_example :
    (own_slot true).read
      (view (reconcile client libraries settings (key_of (named "night")) twins).1.cluster)
      (key_of web.meta)
    ≡ some web
reconcile-elsewhere_example =
    reconcile-elsewhere client libraries settings libraries-IsDocumented idling_resources-IsLawful
      deployments-IsLawful stateful_sets-IsLawful cron_jobs-IsLawful service_accounts-IsLawful
      roles-IsLawful role_bindings-IsLawful true (key_of web.meta) (key_of (named "night")) twins
      names_deployment

-- The same that runs, and is idled by kidlectl.
abbrev day : IdlingResource
day = with_idle evening false

abbrev running : Memory
running = record {
  stored = record (server.stored) {
    idling_resources = put (key_of (named "night")) (some day) (λ k. none);
  };
  conflicts = 0;
}

abbrev asked : Memory
asked = (apply_desired_idle_state client.idling_resources true (key_of (named "night")) running).1

asks :
    apply_desired_idle_state client.idling_resources true (key_of (named "night")) running
    ≡ (ok true, asked)
unfolding apply_desired_idle_state
asks = refl

abbrev idled_after : World Memory
idled_after =
    (reconcile client libraries settings (key_of (named "night"))
      (record { cluster = asked; events = [] })).1

idles :
    reconcile client libraries settings
      (key_of (named "night"))
      (record { cluster = asked; events = [] })
    ≡ (ok finished, idled_after)
unfolding apply_desired_idle_state reconcile reconcile_found has_finalizer contains_string
    add_finalizer reconcile_cron_strategies create_rbac create_or_update_cron_job create_cron_job
    set_cron_job_values to_dns_name containers_to_map set_container dispatch reconcile_workload
    reconcile_with_idler is_being_deleted set_reference change referenced has_annotation
    add_annotation need_wakeup need_idle idle idled itoa differs_from_new same_pointer new_variable
idles = refl

day_lives : is_being_deleted day ≡ false
unfolding is_being_deleted
day_lives = refl

reconcile-apply_desired_idle_state_example :
    Served deployment_slot (with_idle day true) (view asked) (view idled_after.cluster) finished
reconcile-apply_desired_idle_state_example =
    reconcile-apply_desired_idle_state client libraries settings libraries-IsDocumented
      idling_resources-IsLawful deployments-IsLawful stateful_sets-IsLawful cron_jobs-IsLawful
      service_accounts-IsLawful roles-IsLawful role_bindings-IsLawful true true
      (key_of (named "night")) day running asked [] idled_after finished false refl refl day_lives
      asks idles

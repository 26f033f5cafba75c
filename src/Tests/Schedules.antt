-- ===== src/Tests/Schedules.antt =====
-- Names and CronJobs of schedules at concrete values.
use Prim.Native.String.{count}
use kidle.Prelude.{
  inl, none, Bool, List, false, ◌&&◌, ◌||◌, String, ◌≡◌, ◌≤◌, refl, arith, true, false, some, [],
  ◌∷◌,
}
use kidle.Exec.{ok}
use kidle.Meta.{key_of}
use kidle.Array.{contains_string}
use kidle.Objects.{CronJob, PolicyRule, Role}
use kidle.Containers.{containers_to_map, set_container}
use kidle.Dns.{to_dns_name}
use kidle.Dns.Length.{to_dns_name-length}
use kidle.Controller.CronStrategies.Values.{
  CronJobValues, command_idle, new_cron_job, cron_job_need_changes, set_cron_job_values,
}
use kidle.Controller.CronStrategies.Laws.{HasKidlectl, IsScheduled}
use kidle.Pointer.{new_variable, same_pointer, differs_from_new}
use kidle.Containers.Laws.{distinct_names}
use kidle.Api.{IdlingResource}
use kidle.Controller.State.{World}
use kidle.Controller.CronStrategies.{
  create_cron_job, update_cron_job, write_values, create_or_update_cron_job,
  reconcile_cron_strategies,
}
use kidle.Controller.CronStrategies.Removed.{
  before_wakeup, RemovedOrUnread, reconcile_cron_strategies_removes,
}
use kidle.Controller.CronStrategies.Stored.{
  Stored, create_or_update_cron_job-Stored, create_or_update_cron_job_writes,
}
use kidle.Controller.CronStrategies.Rbac.{create_rbac, key_in}
use kidle.Kidlectl.Client.{apply_desired_idle_state}
use kidle.Kidlectl.Authorized.{Request, IsRbac, authorized, create_rbac_suffices}
use kidle.Controller.CronStrategies.Rbac.Granted.{Granted, create_rbac-Granted}
use kidle.Cluster.{put}
use kidle.Tests.Memory.{
  Memory, view, client, idling_resources-IsLawful, cron_jobs-IsLawful, service_accounts-IsLawful,
  roles-IsLawful, role_bindings-IsLawful,
}
use kidle.Tests.Data.{backup, named, server, resource, settings}

to_dns_name-length_example :
    (r : String) × (to_dns_name "kidle"
        "a-name-that-is-much-too-long-for-a-label-of-the-domain-name-system" "idle"
      ≡ ok r)
    × (count r ≤ 63)
to_dns_name-length_example =
    to_dns_name-length "kidle" "a-name-that-is-much-too-long-for-a-label-of-the-domain-name-system"
      "idle" (omega arith)

abbrev values : CronJobValues
values = record {
  key = key_of (named "kidle-night-idle");
  instance_name = "night";
  strategy = record { schedule = "0 20 * * *" };
  command = command_idle;
}

abbrev night_web : IdlingResource
night_web = resource "Deployment" "web" true

abbrev before : World Memory
before = record { cluster = record server { conflicts = 0 }; events = [] }

abbrev after_values : World Memory
after_values = (create_or_update_cron_job client settings night_web values before).1

creates_values :
    create_or_update_cron_job client settings night_web values before ≡ (ok tt, after_values)
unfolding create_or_update_cron_job create_cron_job set_cron_job_values to_dns_name
    containers_to_map set_container
creates_values = refl

create_or_update_cron_job-Stored_example :
    Stored settings values (view before.cluster) (view after_values.cluster)
create_or_update_cron_job-Stored_example =
    create_or_update_cron_job-Stored client settings cron_jobs-IsLawful
      (λ instance m n e. ground arith) night_web values before after_values tt (λ o e. cc)
      creates_values

-- The same again: the CronJob is stored as asked for.
abbrev again : World Memory
again = record { cluster = after_values.cluster; events = [] }

abbrev rewritten : World Memory
rewritten = (create_or_update_cron_job client settings night_web values again).1

abbrev values_set : CronJob
values_set = record (new_cron_job values.key) {
  service_account_name = "kidle-night-sa";
  suspend = some false;
  schedule = "0 20 * * *";
  containers =
      record { name = "kidlectl"; image = "kidledev/kidlectl"; args = "idle" ∷ "night" ∷ [] } ∷ [];
}

reads_values : (client.cron_jobs.get values.key again.cluster).0 ≡ ok values_set
unfolding create_or_update_cron_job create_cron_job set_cron_job_values to_dns_name
    containers_to_map set_container
reads_values = refl

values_set-HasKidlectl : HasKidlectl values_set
unfolding distinct_names containers_to_map
values_set-HasKidlectl = (refl, _, refl)

rewrites_values :
    create_or_update_cron_job client settings night_web values again ≡ (ok tt, rewritten)
unfolding create_or_update_cron_job create_cron_job update_cron_job cron_job_need_changes
    write_values set_cron_job_values to_dns_name containers_to_map set_container differs_from_new
    same_pointer new_variable
rewrites_values = refl

create_or_update_cron_job_writes_example :
    (n : CronJob) × IsScheduled settings values n
    × (n.meta ≡ values_set.meta)
    × ((client.cron_jobs.update n (client.cron_jobs.get values.key again.cluster).1).0 ≡ ok tt)
    × (rewritten.cluster
        ≡ (client.cron_jobs.update n (client.cron_jobs.get values.key again.cluster).1).1)
create_or_update_cron_job_writes_example =
    create_or_update_cron_job_writes client settings cron_jobs-IsLawful night_web values values_set
      again rewritten tt reads_values values_set-HasKidlectl rewrites_values

abbrev after_rbac : World Memory
after_rbac = (create_rbac client settings night_web before).1

creates_rbac : create_rbac client settings night_web before ≡ (ok tt, after_rbac)
unfolding create_rbac to_dns_name
creates_rbac = refl

create_rbac-Granted_example :
    Granted settings night_web (view before.cluster) (view after_rbac.cluster)
create_rbac-Granted_example =
    create_rbac-Granted client settings (λ instance m n e. ground arith) night_web
      service_accounts-IsLawful roles-IsLawful role_bindings-IsLawful before after_rbac tt
      creates_rbac

-- RBAC by the first rule that covers the request.
covers : PolicyRule → Request → Bool
covers rule r =
    contains_string rule.verbs r.verb
    && contains_string rule.api_groups r.api_group
    && contains_string rule.resources r.resource
    && contains_string rule.resource_names r.name

some_covers : List PolicyRule → Request → Bool
some_covers [] r = false
some_covers (rule ∷ rules) r = covers rule r || some_covers rules r

some_covers-IsRbac : IsRbac some_covers
unfolding some_covers covers
some_covers-IsRbac = record {
  permits_listed = λ rule rules r verb group resource name. rw (verb, group, resource, name) refl;
}

create_rbac_suffices_example :
    (name : String) × (to_dns_name "kidle" "night" "role" ≡ ok name)
    × (role : Role) × ((view after_rbac.cluster).roles (key_in night_web name) ≡ some role)
    × ((idle : Bool) (v : Memory)
        → apply_desired_idle_state
            (authorized some_covers role.rules client.idling_resources)
            idle
            (key_of night_web.meta)
            v
          ≡ apply_desired_idle_state client.idling_resources idle (key_of night_web.meta) v)
create_rbac_suffices_example =
    create_rbac_suffices client settings (λ instance m n e. ground arith) idling_resources-IsLawful
      service_accounts-IsLawful roles-IsLawful role_bindings-IsLawful some_covers some_covers-IsRbac
      night_web before after_rbac tt creates_rbac

-- The CronJob of a strategy for waking up that the instance has no more.
abbrev overdue : World Memory
overdue = record {
  cluster = record {
    stored = record (server.stored) {
      cron_jobs =
          put (key_of (named "kidle-night-wakeup"))
            (some (record backup { meta = named "kidle-night-wakeup" })) (λ k. none);
    };
    conflicts = 0;
  };
  events = [];
}

abbrev swept : World Memory
swept = (reconcile_cron_strategies client settings night_web overdue).1

sweeps : reconcile_cron_strategies client settings night_web overdue ≡ (ok tt, swept)
unfolding reconcile_cron_strategies create_rbac to_dns_name
sweeps = refl

reconcile_cron_strategies_removes_example :
    (idle_name : String) × (to_dns_name "kidle" "night" "idle" ≡ ok idle_name)
    × (name : String) × (to_dns_name "kidle" "night" "wakeup" ≡ ok name)
    × RemovedOrUnread client settings cron_jobs-IsLawful
        (key_in night_web name)
        (before_wakeup client settings cron_jobs-IsLawful night_web idle_name overdue)
        swept.cluster
reconcile_cron_strategies_removes_example =
    reconcile_cron_strategies_removes client settings cron_jobs-IsLawful night_web overdue swept tt
      (inl refl) sweeps

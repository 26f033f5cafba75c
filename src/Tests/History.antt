-- ===== src/Tests/History.antt =====
-- A history on the server in memory: a run of the loop that a conflict ends, one that idles the
-- Deployment, kidlectl's request to wake it up, and the run that does.
use kidle.Prelude.{◌≡◌, refl, true, false, some, [], inl, arith, sym, ◌∙◌}
use kidle.Prelude.Int.{pos}
use kidle.Exec.{ok}
use kidle.Array.{contains_string}
use kidle.Strconv.{itoa, atoi}
use kidle.Dns.{to_dns_name}
use kidle.Containers.{containers_to_map, set_container}
use kidle.Meta.{Key, key_of, add_annotation, get_annotation, has_annotation}
use kidle.Objects.{Workload}
use kidle.Api.{IdlingResource, is_being_deleted, has_finalizer}
use kidle.Cluster.{deployment_slot}
use kidle.Idler.Change.{change}
use kidle.Idler.Object.{set_reference, referenced}
use kidle.Idler.Replicas.{need_idle, need_wakeup, idled, idle, wakeup, previous_replicas, scaled_up}
use kidle.Controller.State.{World, finished}
use kidle.Controller.Finalizer.{add_finalizer}
use kidle.Controller.WithIdler.{reconcile_with_idler}
use kidle.Controller.CronStrategies.{
  create_cron_job, create_or_update_cron_job, reconcile_cron_strategies,
}
use kidle.Controller.CronStrategies.Values.{set_cron_job_values}
use kidle.Controller.CronStrategies.Rbac.{create_rbac}
use kidle.Controller.Reconcile.{reconcile, reconcile_found, dispatch, reconcile_workload}
use kidle.Controller.Reconcile.Stands.{Stands}
use kidle.History.{Step, Steps, here, next, reconciles, applies, reconcile-Steps, Steps-Stands}
use kidle.Kidlectl.Client.{apply_desired_idle_state}
use kidle.Pointer.{new_variable, same_pointer, differs_from_new}
use kidle.Tests.Memory.{
  Memory, view, client, deployments-IsLawful, stateful_sets-IsLawful, cron_jobs-IsLawful,
  idling_resources-IsLawful, service_accounts-IsLawful, roles-IsLawful, role_bindings-IsLawful,
}
use kidle.Tests.Libraries.{libraries, libraries-IsDocumented}
use kidle.Tests.Data.{named, server, resource, settings, web}

abbrev night : Key
night = key_of (named "night")

abbrev begun : World Memory
begun = record { cluster = server; events = [] }

-- The first write of the run is refused.
abbrev refused : World Memory
refused = (reconcile client libraries settings night begun).1

abbrev slept : World Memory
slept = (reconcile client libraries settings night refused).1

abbrev asked : Memory
asked = (apply_desired_idle_state client.idling_resources false night slept.cluster).1

abbrev again : World Memory
again = record { cluster = asked; events = [] }

abbrev woken : World Memory
woken = (reconcile client libraries settings night again).1

abbrev asleep : IdlingResource
asleep = resource "Deployment" "web" true

abbrev day : IdlingResource
day = resource "Deployment" "web" false

stored_lives :
    (a : IdlingResource) (i : IdlingResource)
    → some a ≡ some i
    → is_being_deleted a ≡ false
    → is_being_deleted i ≡ false
stored_lives a i e lives = let same : a ≡ i = cc in rw (← same) lives

night_lives : is_being_deleted asleep ≡ false
unfolding is_being_deleted
night_lives = refl

day_lives : is_being_deleted day ≡ false
unfolding is_being_deleted
day_lives = refl

kept_after_refused : (view refused.cluster).idling_resources night ≡ some asleep
unfolding reconcile reconcile_found has_finalizer contains_string add_finalizer
    reconcile_cron_strategies create_rbac create_or_update_cron_job create_cron_job
    set_cron_job_values to_dns_name containers_to_map set_container dispatch reconcile_workload
    reconcile_with_idler is_being_deleted set_reference change referenced has_annotation
    add_annotation need_wakeup need_idle idle idled itoa differs_from_new same_pointer new_variable
kept_after_refused = refl

asks_day : (view asked).idling_resources night ≡ some day
unfolding apply_desired_idle_state reconcile reconcile_found has_finalizer contains_string
    add_finalizer reconcile_cron_strategies create_rbac create_or_update_cron_job create_cron_job
    set_cron_job_values to_dns_name containers_to_map set_container dispatch reconcile_workload
    reconcile_with_idler is_being_deleted set_reference change referenced has_annotation
    add_annotation need_wakeup need_idle idle idled itoa differs_from_new same_pointer new_variable
asks_day = refl

wakes : reconcile client libraries settings night again ≡ (ok finished, woken)
unfolding apply_desired_idle_state reconcile reconcile_found has_finalizer contains_string
    add_finalizer reconcile_cron_strategies create_rbac create_or_update_cron_job create_cron_job
    set_cron_job_values to_dns_name containers_to_map set_container dispatch reconcile_workload
    reconcile_with_idler is_being_deleted set_reference change referenced has_annotation
    add_annotation get_annotation need_wakeup need_idle idle idled itoa wakeup previous_replicas
    scaled_up atoi differs_from_new same_pointer new_variable
wakes = refl

-- One step of the run for the Deployment `web`.
abbrev WebStep : Memory → Memory → Type 0
WebStep = Step view client libraries settings false (key_of web.meta)

failed : WebStep server refused.cluster
failed = reconciles night begun (λ i stored. inl (stored_lives asleep i stored night_lives))

idles : WebStep refused.cluster slept.cluster
idles =
    reconciles night refused
      (λ i stored. inl (stored_lives asleep i (sym kept_after_refused ∙ stored) night_lives))

history : Steps view client libraries settings false (key_of web.meta) server asked
history = next (next (next here failed) idles) (applies false night slept.cluster)

reconcile-Steps_example :
    (o : Workload) × (deployment_slot.read (view woken.cluster) (key_of web.meta) ≡ some o)
    × (o.replicas ≡ some (pos 3))
reconcile-Steps_example =
    reconcile-Steps client libraries settings libraries-IsDocumented idling_resources-IsLawful
      deployments-IsLawful stateful_sets-IsLawful cron_jobs-IsLawful service_accounts-IsLawful
      roles-IsLawful role_bindings-IsLawful false (key_of web.meta) (pos 3) (omega arith) refl night
      day server again woken finished (web, refl, inl refl) history asks_day refl refl day_lives
      wakes

Steps-Stands_example : Stands false (key_of web.meta) (pos 3) (view asked)
Steps-Stands_example =
    Steps-Stands client libraries settings libraries-IsDocumented idling_resources-IsLawful
      deployments-IsLawful stateful_sets-IsLawful cron_jobs-IsLawful service_accounts-IsLawful
      roles-IsLawful role_bindings-IsLawful false (key_of web.meta) (pos 3) (omega arith) refl
      history (web, refl, inl refl)

-- ===== src/Controller/CronStrategies.antt =====
-- pkg/controllers/cron_strategies.go: the CronJobs by which an IdlingResource is idled and woken
-- up on a schedule.
pub mod Rbac
pub mod Values
pub mod Laws
pub mod Stored
pub mod Frame
pub mod Removed
use kidle.Prelude.{String, Bool, true, false, Option, none, some, if◌then◌else◌}
use kidle.Exec.{
  Error, errorf, is_not_found, Result, ok, err, panic, Exec, pure, raise, lift, ◌>>=◌, ◌>>◌,
}
use kidle.Dns.{to_dns_name}
use kidle.Meta.{Key, ObjectMeta}
use kidle.Objects.{CronJob}
use kidle.Api.{CronStrategy, IdlingStrategy, WakeupStrategy, IdlingResource}
use kidle.Cluster.{Client}
use kidle.Controller.State.{
  normal, warning, text, failure, World, calling, on_error, caught, record_event, fail_after_event,
}
use Values.{
  Settings, CronJobValues, command_idle, command_wakeup, new_cron_job, cron_job_need_changes,
  set_cron_job_values, owned_cron_job,
}
use Rbac.{create_rbac}

module _ {W : Type 0} (client : Client W) (settings : Settings) where
  -- The branch of `createOrUpdateCronJob` for a CronJob that is not there.
  unfoldable pub create_cron_job : IdlingResource → CronJobValues → Exec (World W) (Unit {0})
  create_cron_job instance cj_values = do
    cj ← lift (set_cron_job_values settings (new_cron_job cj_values.key) cj_values)
    owned ←
        on_error (lift (owned_cron_job settings instance cj))
          (λ e. raise (errorf "unable to set controller reference for cronJob" e))
    on_error (calling (client.cron_jobs.create owned))
        (λ e. raise (errorf "unable to create cronJob" e))

  unfoldable pub write_values : CronJob → CronJobValues → Exec (World W) (Unit {0})
  write_values cron_job cj_values = do
    cj ← lift (set_cron_job_values settings cron_job cj_values)
    on_error (calling (client.cron_jobs.update cj))
        (λ e. raise (errorf "unable to update cronJob" e))

  -- The branch for one that is there.
  unfoldable pub update_cron_job : CronJob → CronJobValues → Exec (World W) (Unit {0})
  unfolding write_values
  update_cron_job cron_job cj_values = do
    changes ← lift (cron_job_need_changes settings cron_job cj_values)
    if changes then write_values cron_job cj_values else pure tt

  after_get : IdlingResource → CronJobValues → Result CronJob → Exec (World W) (Unit {0})
  unfolding create_cron_job update_cron_job
  after_get instance cj_values (ok cron_job) = update_cron_job cron_job cj_values
  after_get instance cj_values (err e) =
      if is_not_found e
      then create_cron_job instance cj_values
      else raise (errorf "unable to get cronJob" e)
  after_get instance cj_values (panic m) = lift (panic m)

  -- `createOrUpdateCronJob`
  unfoldable pub create_or_update_cron_job :
      IdlingResource → CronJobValues → Exec (World W) (Unit {0})
  unfolding after_get
  create_or_update_cron_job instance cj_values = do
    got ← caught (calling (client.cron_jobs.get cj_values.key))
    after_get instance cj_values got

  -- `client.IgnoreNotFound` of the error of `Delete`, and the events.
  deleted_cron_job : String → String → Result (Unit {0}) → Exec (World W) (Unit {0})
  deleted_cron_job reason returned (ok u) = record_event normal reason (text "Deleted")
  deleted_cron_job reason returned (err e) =
      if is_not_found e
      then record_event normal reason (text "Deleted")
      else fail_after_event reason "Failed to delete CronJob" returned e
  deleted_cron_job reason returned (panic m) = lift (panic m)

  remove_found : String → String → Result CronJob → Exec (World W) (Unit {0})
  unfolding deleted_cron_job
  remove_found reason returned (ok cron_job) = do
    gone ← caught (calling (client.cron_jobs.delete cron_job))
    deleted_cron_job reason returned gone
  remove_found reason returned (err e) = pure tt
  remove_found reason returned (panic m) = lift (panic m)

  -- The CronJob of one command: created or updated if there is a strategy, else deleted. The texts
  -- are the reasons of the two events and the errors returned.
  reconcile_strategy :
      IdlingResource
      → Key
      → String
      → Option CronStrategy
      → String
      → String
      → String
      → String
      → Exec (World W) (Unit {0})
  unfolding remove_found create_or_update_cron_job
  reconcile_strategy instance key command (some strategy) creating creating_error deleting
        deleting_error =
      do
        let cj_values : CronJobValues = record {
          key = key;
          instance_name = instance.meta.name;
          strategy = strategy;
          command = command;
        }
        on_error (create_or_update_cron_job instance cj_values)
            (fail_after_event creating "Failed to create CronJob" creating_error)
        record_event normal creating (text "Created")
  reconcile_strategy instance key command none creating creating_error deleting deleting_error = do
    got ← caught (calling (client.cron_jobs.get key))
    remove_found deleting deleting_error got

  abbrev idle_strategy : IdlingResource → Option CronStrategy
  idle_strategy instance = elim instance.spec.idling_strategy [
    | none ↦ none
    | some s ↦ s.cron_strategy
  ]

  abbrev wakeup_strategy : IdlingResource → Option CronStrategy
  wakeup_strategy instance = elim instance.spec.wakeup_strategy [
    | none ↦ none
    | some s ↦ s.cron_strategy
  ]

  abbrev key_named : IdlingResource → String → Key
  key_named instance name = record { namespace = instance.meta.namespace; name = name }

  abbrev reconcile_idle_at : IdlingResource → String → Exec (World W) (Unit {0})
  reconcile_idle_at instance idle_name =
      reconcile_strategy instance (key_named instance idle_name) command_idle
        (idle_strategy instance) "Creating idle CronJob" "error when creating idle CronJob"
        "Deleting idle CronJob" "error when deleting idle CronJob"

  abbrev reconcile_wakeup_at : IdlingResource → String → Exec (World W) (Unit {0})
  reconcile_wakeup_at instance wakeup_name =
      reconcile_strategy instance (key_named instance wakeup_name) command_wakeup
        (wakeup_strategy instance) "Creating wakeup CronJob" "error when creating wakeup CronJob"
        "Deleting wakeup CronJob" "error when deleting wakeup CronJob"

  -- `ReconcileCronStrategies`, from its last part to the whole.
  reconcile_wakeup : IdlingResource → Exec (World W) (Unit {0})
  reconcile_wakeup instance = do
    wakeup_name ← lift (to_dns_name "kidle" instance.meta.name command_wakeup)
    reconcile_wakeup_at instance wakeup_name

  reconcile_idle : IdlingResource → Exec (World W) (Unit {0})
  unfolding reconcile_wakeup
  reconcile_idle instance = do
    idle_name ← lift (to_dns_name "kidle" instance.meta.name command_idle)
    reconcile_idle_at instance idle_name
    reconcile_wakeup instance

  unfoldable pub reconcile_cron_strategies : IdlingResource → Exec (World W) (Unit {0})
  unfolding reconcile_idle reconcile_wakeup reconcile_strategy
  reconcile_cron_strategies instance = do
    on_error (create_rbac client settings instance)
        (fail_after_event "Adding RBAC" "Failed to add RBAC" "error when adding RBAC")
    reconcile_idle instance

-- ===== src/Idler/CronJob.antt =====
-- pkg/controllers/idler/cronjob.go
pub mod Laws
pub mod Contract
pub mod Live
use kidle.Prelude.{String, Bool, true, false, not, Option, none, some, if◌then◌else◌}
use kidle.Prelude.Int.{ℤ}
use kidle.Exec.{Result, ok, err, panic, Exec, pure, lift, ◌>>=◌, ◌>>◌}
use kidle.Meta.{ObjectMeta, add_annotation}
use kidle.Objects.{CronJob, cron_job_object}
use kidle.Api.{IdlingResource, metadata_expected_state}
use kidle.Cluster.{ObjectClient, Client}
use kidle.Cluster.Retry.{RetryOnConflict}
use kidle.Idler.{Idler}
use kidle.Idler.Change.{Local, change}
use kidle.Idler.Object.{set_reference, remove_annotations}

-- `NeedIdle`
unfoldable pub need_idle : IdlingResource → CronJob → Result Bool
need_idle instance o =
    if instance.spec.idle
    then elim o.suspend [
      | none ↦ panic "nil pointer dereference"
      | some suspended ↦ ok (not suspended)
    ]
    else ok false

-- `NeedWakeup`
unfoldable pub need_wakeup : IdlingResource → CronJob → Result Bool
need_wakeup instance o =
    if instance.spec.idle
    then ok false
    else elim o.suspend [ none ↦ panic "nil pointer dereference" | some suspended ↦ ok suspended ]

-- What the closures of `Idle` and `Wakeup` do to the object.
unfoldable pub suspended : CronJob → Result CronJob
suspended o =
    ok (record o {
      meta = add_annotation o.meta metadata_expected_state "true";
      suspend = some true;
    })

unfoldable pub resumed : CronJob → Result CronJob
resumed o = ok (record o {
  meta = add_annotation o.meta metadata_expected_state "false";
  suspend = some false;
})

module _ {W : Type 0} (c : ObjectClient W CronJob) (retry : RetryOnConflict) where
  -- `Idle`
  unfoldable pub idle : Exec (Local W CronJob) (Unit {0})
  idle s = elim s.object.suspend [
    | none ↦ (panic "nil pointer dereference", s)
    | some already ↦ if not already then change cron_job_object c retry suspended s else (ok tt, s)
  ]

  resume : Exec (Local W CronJob) (Unit {0})
  resume s = elim s.object.suspend [
    | none ↦ (panic "nil pointer dereference", s)
    | some idled ↦ if idled then change cron_job_object c retry resumed s else (ok tt, s)
  ]

  -- `Wakeup`, which returns no replicas
  unfoldable pub wakeup : Exec (Local W CronJob) (Option ℤ)
  unfolding resume
  wakeup = do resume; pure none

  -- A `CronJobIdler` with the `ObjectIdler` that it embeds.
  abbrev pub cron_job_idler : Idler W CronJob
  cron_job_idler = record {
    set_reference = set_reference cron_job_object c retry;
    remove_annotations = remove_annotations cron_job_object c retry;
    need_idle = need_idle;
    need_wakeup = need_wakeup;
    idle = idle;
    wakeup = wakeup;
  }

-- `NewCronJobIdler`
abbrev pub new_cron_job_idler : {W : Type 0} → Client W → RetryOnConflict → Idler W CronJob
new_cron_job_idler client retry = cron_job_idler client.cron_jobs retry

-- ===== src/Tests/CronJobs.antt =====
-- The idler of CronJobs on the server in memory.
use kidle.Watch.{cron_job, update}
use kidle.Watch.Laws.{update-IsSwitched}
use kidle.Prelude.{◌≡◌, refl, arith, inl, inr, Option, none, false, true}
use kidle.Prelude.Int.{ℤ}
use kidle.Exec.{ok}
use kidle.Objects.{CronJob, cron_job_object}
use kidle.Meta.{add_annotation}
use kidle.Cluster.{cron_job_slot}
use kidle.Idler.Change.{Local, change}
use kidle.Idler.Contract.{IsIdler}
use kidle.Idler.CronJob.{suspended, idle, wakeup, cron_job_idler}
use kidle.Idler.CronJob.Laws.{IsSwitched, Switched, idle-Switched}
use kidle.Idler.CronJob.Contract.{Asleep, Awake, cron_job_idler-IsIdler}
use kidle.Tests.Memory.{Memory, view, client, cron_jobs-IsLawful}
use kidle.Tests.Libraries.{five_attempts, five_attempts-IsRetry}
use kidle.Tests.Data.{backup, backup_run}

abbrev no_count : Option ℤ
no_count = none

abbrev suspended_run : Local Memory CronJob
suspended_run = (idle client.cron_jobs five_attempts backup_run).1

abbrev resumed_run : Local Memory CronJob
resumed_run = (wakeup client.cron_jobs five_attempts suspended_run).1

suspends : idle client.cron_jobs five_attempts backup_run ≡ (ok tt, suspended_run)
unfolding idle change suspended add_annotation
suspends = refl

idle-Switched_example : Switched view cron_job_slot true backup_run suspended_run
idle-Switched_example =
    idle-Switched cron_jobs-IsLawful five_attempts-IsRetry backup_run suspended_run tt refl suspends

cron_job_idler-IsIdler_example :
    IsIdler view cron_job_slot cron_job_object
      (cron_job_idler client.cron_jobs five_attempts)
      Asleep
      Awake
cron_job_idler-IsIdler_example = cron_job_idler-IsIdler cron_jobs-IsLawful five_attempts-IsRetry

switched :
    Switched view cron_job_slot true backup_run suspended_run
    → IsSwitched true backup suspended_run.object
switched (inl (there, same)) = ground arith
switched (inr (updated, changed)) = changed

backup-IsSwitched : IsSwitched true backup suspended_run.object
backup-IsSwitched = switched (
    idle-Switched cron_jobs-IsLawful five_attempts-IsRetry backup_run suspended_run tt refl
      suspends)

update-IsSwitched_example : update (cron_job backup) (cron_job suspended_run.object) ≡ ok false
update-IsSwitched_example =
    update-IsSwitched backup backup suspended_run.object true backup-IsSwitched

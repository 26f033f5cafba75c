-- ===== src/Idler/CronJob/Live.antt =====
-- The idler of CronJobs under an API server that is up.
use kidle.Prelude.{
  String, ◌≡◌, refl, ◌⊎◌, Bool, true, false, not, Option, none, some, arith, inl, inr,
  if◌then◌else◌,
}
use kidle.Prelude.Int.{ℤ}
use kidle.Exec.{ok}
use kidle.Objects.{CronJob, cron_job_object}
use kidle.Api.{IdlingResource}
use kidle.Cluster.{Cluster, ObjectClient, Slot, IsLawful}
use kidle.Cluster.Responsive.{IsResponsive}
use kidle.Cluster.Retry.{RetryOnConflict, IsRetry}
use kidle.Idler.Live.{IsLive}
use kidle.Idler.Change.{Local}
use kidle.Idler.Change.Live.{change_succeeds}
use kidle.Idler.Change.Updated.{IsCurrent}
use kidle.Idler.Object.{referenced}
use kidle.Idler.Object.Live.{set_reference_succeeds}
use kidle.Idler.CronJob.{suspended, resumed, idle, need_idle, need_wakeup, wakeup, cron_job_idler}
use kidle.Idler.CronJob.Laws.{suspended_keeps, resumed_keeps}

-- It is said whether the CronJob is suspended.
abbrev pub Sound : CronJob → Type 0
Sound o = (b : Bool) × (o.suspend ≡ some b)

need_idle_returns :
    (instance : IdlingResource) (o : CronJob) → Sound o → (b : Bool) × (need_idle instance o ≡ ok b)
unfolding need_idle
need_idle_returns instance o (b, has) = (if instance.spec.idle then not b else false, ground arith)

need_wakeup_returns :
    (instance : IdlingResource) (o : CronJob)
    → Sound o
    → (b : Bool) × (need_wakeup instance o ≡ ok b)
unfolding need_wakeup
need_wakeup_returns instance o (b, has) = (if instance.spec.idle then false else b, ground arith)

Sound-Referenced :
    (name : String) (o n : CronJob)
    → (n ≡ o) ⊎ (referenced cron_job_object name o ≡ ok n)
    → Sound o
    → Sound n
unfolding referenced
Sound-Referenced name o n (inl same) sound = rw same sound
Sound-Referenced name o n (inr made) (b, has) = (b, ground arith)

module _ {W : Type 0} {view : W → Cluster} {slot : Slot CronJob} {c : ObjectClient W CronJob}
    {Up : W → Type 0} (law : IsLawful view slot cron_job_object c)
    (responsive : IsResponsive view slot cron_job_object c Up) {retry : RetryOnConflict}
    (retries : IsRetry retry) where
  idle_succeeds :
      (s : Local W CronJob)
      → IsCurrent view slot cron_job_object s
      → Up s.cluster
      → Sound s.object
      → (t : Local W CronJob) × (idle c retry s ≡ (ok tt, t))
  unfolding idle suspended
  idle_succeeds s current up (true, has) = (s, ground arith)
  idle_succeeds s current up (false, has) =
      let (t, run, _, _) =
        change_succeeds law responsive retries suspended (suspended_keeps law retries) s _ current
          up refl in
      (t, ground (arith, run))

  wakeup_succeeds :
      (s : Local W CronJob)
      → IsCurrent view slot cron_job_object s
      → Up s.cluster
      → Sound s.object
      → (p : Option ℤ) × (t : Local W CronJob) × (wakeup c retry s ≡ (ok p, t))
  unfolding wakeup resumed
  wakeup_succeeds s current up (false, has) = (none, s, ground arith)
  wakeup_succeeds s current up (true, has) =
      let (t, run, _, _) =
        change_succeeds law responsive retries resumed (resumed_keeps law retries) s _ current up
          refl in
      (none, t, ground (arith, run))

  pub cron_job_idler-IsLive : IsLive view slot cron_job_object (cron_job_idler c retry) Sound Up
  cron_job_idler-IsLive = record {
    set_reference_returns = λ name s current up sound.
        let (t, run, made, still) =
          set_reference_succeeds law responsive retries name s current up in
        (t, run, Sound-Referenced name s.object t.object made sound, still);
    need_idle_returns = need_idle_returns;
    need_wakeup_returns = need_wakeup_returns;
    idle_returns = idle_succeeds;
    wakeup_returns = wakeup_succeeds;
  }

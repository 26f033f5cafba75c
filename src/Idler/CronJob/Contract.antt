-- ===== src/Idler/CronJob/Contract.antt =====
-- The contract of the interface, for the idler of CronJobs (pkg/controllers/idler/cronjob.go).
use kidle.Prelude.{◌≡◌, refl, ap, Bool, true, false, some, arith, inl, inr}
use kidle.Exec.{ok}
use kidle.Meta.{get_annotation}
use kidle.Objects.{CronJob, cron_job_object}
use kidle.Api.{IdlingResource, metadata_idling_resource_reference}
use kidle.Cluster.{Cluster, ObjectClient, Slot, IsLawful}
use kidle.Cluster.Retry.{RetryOnConflict, IsRetry}
use kidle.Idler.Change.{Local}
use kidle.Idler.Change.Updated.{IsCurrent, Updated, Updated-refl}
use kidle.Idler.Object.Laws.{
  set_reference_failed, remove_annotations_failed, set_reference_again, set_reference-ok,
  remove_annotations-ok,
}
use kidle.Idler.Contract.{IsIdler}
use kidle.Idler.CronJob.{need_idle, need_wakeup, cron_job_idler}
use kidle.Idler.CronJob.Laws.{
  idle_refused, wakeup_refused, Switched, idle-Switched, wakeup-Switched,
}

abbrev pub Asleep : CronJob → Type 0
Asleep o = o.suspend ≡ some true

abbrev pub Awake : CronJob → Type 0
Awake o = o.suspend ≡ some false

need_idle-Asleep :
    (instance : IdlingResource) (o : CronJob)
    → instance.spec.idle ≡ true
    → need_idle instance o ≡ ok false
    → Asleep o
unfolding need_idle
need_idle-Asleep instance o h e = ground arith

need_idle_rests :
    (instance : IdlingResource) (o : CronJob) → Asleep o → need_idle instance o ≡ ok false
unfolding need_idle
need_idle_rests instance o asleep = ground arith

need_wakeup-Awake :
    (instance : IdlingResource) (o : CronJob)
    → instance.spec.idle ≡ false
    → need_wakeup instance o ≡ ok false
    → Awake o
unfolding need_wakeup
need_wakeup-Awake instance o h e = ground arith

module _ {W : Type 0} {view : W → Cluster} {slot : Slot CronJob} {c : ObjectClient W CronJob}
    (law : IsLawful view slot cron_job_object c) {retry : RetryOnConflict}
    (retries : IsRetry retry) where
  Switched-set :
      (b : Bool) (s t : Local W CronJob)
      → IsCurrent view slot cron_job_object s
      → Switched view slot b s t
      → Updated view slot cron_job_object s t
        × (t.object.suspend ≡ some b)
        × (get_annotation t.object.meta metadata_idling_resource_reference
            ≡ get_annotation s.object.meta metadata_idling_resource_reference)
  Switched-set b s t current (inl (there, same)) =
      rw same (Updated-refl view slot cron_job_object s current, there, refl)
  Switched-set b s t current (inr (updated, switched)) = (
    updated,
    ap (λ (o : CronJob). o.suspend) switched.body,
    switched.annotated metadata_idling_resource_reference,
  )

  -- The idler of CronJobs keeps the same contract `IsIdler`, where asleep is suspended and awake is not
  -- suspended.
  pub cron_job_idler-IsIdler :
      IsIdler view slot cron_job_object (cron_job_idler c retry) Asleep Awake
  unfolding need_idle need_wakeup
  cron_job_idler-IsIdler = record {
    set_reference-ok = set_reference-ok law retries;
    remove_annotations-ok = remove_annotations-ok law retries;
    idle-ok = λ s t u current e.
        Switched-set true s t current (idle-Switched law retries s t u current e);
    wakeup-ok = λ s t p current e.
        Switched-set false s t current (wakeup-Switched law retries s t p current e).0;
    idle_not_woken = λ instance o h. rw h;
    woken_not_idle = λ instance o h. rw h;
    asleep = need_idle-Asleep;
    awake = need_wakeup-Awake;
    set_reference_failed = set_reference_failed law retries;
    remove_annotations_failed = remove_annotations_failed law retries;
    idle_failed = idle_refused law retries;
    wakeup_failed = wakeup_refused law retries;
    set_reference_again = set_reference_again cron_job_object c retry;
    asleep_rests = λ instance o. need_idle_rests instance o;
  }

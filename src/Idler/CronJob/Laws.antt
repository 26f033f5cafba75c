-- ===== src/Idler/CronJob/Laws.antt =====
-- What `Idle` and `Wakeup` of a CronJob store.
use kidle.Prelude.{
  String, ◌≡◌, refl, Bool, true, false, not, ◌⊎◌, inl, inr, Option, none, some, arith, ◌==◌,
  if◌then◌else◌,
}
use kidle.Prelude.Int.{ℤ}
use kidle.Exec.{Result, ok}
use kidle.Strconv.{format_bool}
use kidle.Meta.{add_annotation, get_annotation}
use kidle.Meta.Laws.{get_annotation-add_annotation}
use kidle.Objects.{CronJob, cron_job_object}
use kidle.Api.{metadata_expected_state}
use kidle.Cluster.{Cluster, ObjectClient, Slot, is_ok, IsLawful}
use kidle.Cluster.Retry.{RetryOnConflict, IsRetry}
use kidle.Idler.Change.{Local, change}
use kidle.Idler.Change.Updated.{
  IsCurrent, Updated, KeepsIdentity, change-Updated, change-view_failed,
}
use kidle.Idler.CronJob.{suspended, resumed, idle, wakeup}

-- `n` is `o` with `suspend` turned to `b`, which is its expected state. The schedule, the pod
-- template and the other annotations are those of `o`.
pub record IsSwitched (b : Bool) (o n : CronJob) : Type 0 where
  pub was : o.suspend ≡ some (not b)
  pub body : n ≡ record o { meta = n.meta; suspend = some b }
  pub annotated :
      (a : String)
      → get_annotation n.meta a
        ≡ (if metadata_expected_state == a then some (format_bool b) else get_annotation o.meta a)

-- A switch to `b` either found it there and did nothing, or stored it and changed no other object.
abbrev pub Switched :
    {W : Type 0} → (W → Cluster) → Slot CronJob → Bool → Local W CronJob → Local W CronJob → Type 0
Switched view slot b s t =
    ((s.object.suspend ≡ some b) × (t ≡ s))
    ⊎ (Updated view slot cron_job_object s t × IsSwitched b s.object t.object)

suspended-IsSwitched :
    (o n : CronJob) → o.suspend ≡ some false → suspended o ≡ ok n → IsSwitched true o n
unfolding suspended format_bool
suspended-IsSwitched o n was e =
    let m = add_annotation o.meta metadata_expected_state "true" in
    let same : record o { meta = m; suspend = some true } ≡ n = cc in
    record {
      was = was;
      body = rw (← same) refl;
      annotated = λ a. rw (← same) (simp get_annotation-add_annotation);
    }

resumed-IsSwitched :
    (o n : CronJob) → o.suspend ≡ some true → resumed o ≡ ok n → IsSwitched false o n
unfolding resumed format_bool
resumed-IsSwitched o n was e =
    let m = add_annotation o.meta metadata_expected_state "false" in
    let same : record o { meta = m; suspend = some false } ≡ n = cc in
    record {
      was = was;
      body = rw (← same) refl;
      annotated = λ a. rw (← same) (simp get_annotation-add_annotation);
    }

module _ {W : Type 0} {view : W → Cluster} {slot : Slot CronJob} {c : ObjectClient W CronJob}
    (law : IsLawful view slot cron_job_object c) {retry : RetryOnConflict}
    (retries : IsRetry retry) where
  pub suspended_keeps : KeepsIdentity view slot cron_job_object suspended
  unfolding suspended add_annotation
  suspended_keeps o o' e = ground arith

  pub resumed_keeps : KeepsIdentity view slot cron_job_object resumed
  unfolding resumed add_annotation
  resumed_keeps o o' e = ground arith

  idle-Switched_at :
      (s t : Local W CronJob) (u : Unit {0}) (suspend : Option Bool)
      → s.object.suspend ≡ suspend
      → IsCurrent view slot cron_job_object s
      → idle c retry s ≡ (ok u, t)
      → Switched view slot true s t
  unfolding idle
  idle-Switched_at s t u none g current e = ground arith
  idle-Switched_at s t u (some true) g current e = inl (g, ground arith)
  idle-Switched_at s t u (some false) g current e =
      let run : change cron_job_object c retry suspended s ≡ (ok u, t) = ground arith in
      let (updated, made) =
        change-Updated law retries suspended suspended_keeps s t u current run in
      inr (updated, suspended-IsSwitched s.object t.object g made)

  -- An `Idle` of a CronJob that succeeds suspends the CronJob and gives it the expected state
  -- `true`, and changes no other object; a CronJob that is suspended it leaves alone.
  pub idle-Switched :
      (s t : Local W CronJob) (u : Unit {0})
      → IsCurrent view slot cron_job_object s
      → idle c retry s ≡ (ok u, t)
      → Switched view slot true s t
  idle-Switched s t u = idle-Switched_at s t u s.object.suspend refl

  -- An `Idle` of a CronJob that fails, by an error or a panic, changes no stored object.
  pub idle_refused :
      (s t : Local W CronJob) (r : Result (Unit {0}))
      → idle c retry s ≡ (r, t)
      → is_ok r ≡ false
      → view t.cluster ≡ view s.cluster
  unfolding idle
  idle_refused s t r e h =
      ground (arith, change-view_failed law retries suspended suspended_keeps s t r)

  wakeup-Switched_at :
      (s t : Local W CronJob) (p : Option ℤ) (suspend : Option Bool)
      → s.object.suspend ≡ suspend
      → IsCurrent view slot cron_job_object s
      → wakeup c retry s ≡ (ok p, t)
      → Switched view slot false s t × (p ≡ none)
  unfolding wakeup
  wakeup-Switched_at s t p none g current e = ground arith
  wakeup-Switched_at s t p (some false) g current e = (inl (g, ground arith), ground arith)
  wakeup-Switched_at s t p (some true) g current e =
      let run : change cron_job_object c retry resumed s ≡ (ok tt, t) = ground arith in
      let (updated, made) = change-Updated law retries resumed resumed_keeps s t tt current run in
      (inr (updated, resumed-IsSwitched s.object t.object g made), ground arith)

  -- A `Wakeup` of a CronJob that succeeds resumes the CronJob and gives it the expected state
  -- `false`, and changes no other object; a CronJob that is not suspended it leaves alone. It
  -- returns no count.
  pub wakeup-Switched :
      (s t : Local W CronJob) (p : Option ℤ)
      → IsCurrent view slot cron_job_object s
      → wakeup c retry s ≡ (ok p, t)
      → Switched view slot false s t × (p ≡ none)
  wakeup-Switched s t p = wakeup-Switched_at s t p s.object.suspend refl

  -- A `Wakeup` of a CronJob that fails, by an error or a panic, changes no stored object.
  pub wakeup_refused :
      (s t : Local W CronJob) (r : Result (Option ℤ))
      → wakeup c retry s ≡ (r, t)
      → is_ok r ≡ false
      → view t.cluster ≡ view s.cluster
  unfolding wakeup
  wakeup_refused s t r e h =
      let (q, x) = change cron_job_object c retry resumed s in
      ground (arith, change-view_failed law retries resumed resumed_keeps s x q refl)

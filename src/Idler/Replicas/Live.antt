-- ===== src/Idler/Replicas/Live.antt =====
-- The idlers of Deployments and StatefulSets under an API server that is up.
use kidle.Prelude.{
  String, ◌≡◌, refl, ◌∙◌, ◌⊎◌, Bool, false, Option, some, arith, inl, inr, if◌then◌else◌,
}
use kidle.Prelude.Int.{ℤ, is_positive, is_zero}
use kidle.Exec.{ok}
use kidle.Idler.Object.Live.{set_reference_succeeds}
use kidle.Idler.Replicas.Contract.{previous_replicas_congr}
use kidle.Meta.Laws.{get_annotation-add_annotation}
use kidle.Meta.{add_annotation}
use kidle.Objects.{Workload, workload_object}
use kidle.Api.{IdlingResource, metadata_idling_resource_reference, metadata_previous_replicas}
use kidle.Cluster.{Cluster, ObjectClient, Slot, IsLawful}
use kidle.Cluster.Responsive.{IsResponsive}
use kidle.Cluster.Retry.{RetryOnConflict, IsRetry}
use kidle.Idler.Live.{IsLive}
use kidle.Idler.Change.{Local}
use kidle.Idler.Change.Live.{change_succeeds}
use kidle.Idler.Change.Updated.{IsCurrent}
use kidle.Idler.Object.{referenced}
use kidle.Idler.Replicas.Guards.{idle-change, wakeup-change}
use kidle.Idler.Replicas.{
  idled, scaled_down, scaled_up, previous_replicas, idle, need_idle, need_wakeup, wakeup,
  replicas_idler,
}
use kidle.Idler.Replicas.Laws.{idled_keeps, scaled_up_keeps}
use kidle.Idler.Replicas.Progress.{idled-some, restored}

-- A count of replicas is set, and the saved one can be read.
abbrev pub Sound : Workload → Type 0
Sound o = (r : ℤ) × (count : ℤ) × (o.replicas ≡ some r) × (previous_replicas o ≡ ok count)

need_idle_returns :
    (instance : IdlingResource) (o : Workload)
    → Sound o
    → (b : Bool) × (need_idle instance o ≡ ok b)
unfolding need_idle
need_idle_returns instance o (r, _, has, _) =
    (if instance.spec.idle then is_positive r else false, ground arith)

need_wakeup_returns :
    (instance : IdlingResource) (o : Workload)
    → Sound o
    → (b : Bool) × (need_wakeup instance o ≡ ok b)
unfolding need_wakeup
need_wakeup_returns instance o (r, _, has, _) =
    (if instance.spec.idle then false else is_zero r, ground arith)

-- A reference leaves the counts alone.
Sound-referenced :
    (name : String) (o n : Workload) → referenced workload_object name o ≡ ok n → Sound o → Sound n
unfolding referenced
Sound-referenced name o n made (r, count, has, saved) =
    let m = add_annotation o.meta metadata_idling_resource_reference name in
    let same : record o { meta = m } ≡ n = cc in
    let kept : previous_replicas n ≡ previous_replicas o = previous_replicas_congr o n (
      rw (← same) (
        get_annotation-add_annotation o.meta metadata_idling_resource_reference
          metadata_previous_replicas name)) in
    (r, count, rw (← same) has, kept ∙ saved)

Sound-Referenced :
    (name : String) (o n : Workload)
    → (n ≡ o) ⊎ (referenced workload_object name o ≡ ok n)
    → Sound o
    → Sound n
Sound-Referenced name o n (inl same) sound = rw same sound
Sound-Referenced name o n (inr made) sound = Sound-referenced name o n made sound

module _ {W : Type 0} {view : W → Cluster} {slot : Slot Workload} {c : ObjectClient W Workload}
    {Up : W → Type 0} (law : IsLawful view slot workload_object c)
    (responsive : IsResponsive view slot workload_object c Up) {retry : RetryOnConflict}
    (retries : IsRetry retry) where
  idle_succeeds :
      (s : Local W Workload)
      → IsCurrent view slot workload_object s
      → Up s.cluster
      → Sound s.object
      → (t : Local W Workload) × (idle c retry s ≡ (ok tt, t))
  idle_succeeds s current up (r, _, has, _) =
      let (t, run, _, _) =
        change_succeeds law responsive retries idled (idled_keeps law retries) s
          (scaled_down s.object r) current up (idled-some s.object r has) in
      (t, rw idle-change run)

  wakeup_succeeds :
      (s : Local W Workload)
      → IsCurrent view slot workload_object s
      → Up s.cluster
      → Sound s.object
      → (p : Option ℤ) × (t : Local W Workload) × (wakeup c retry s ≡ (ok p, t))
  unfolding scaled_up
  wakeup_succeeds s current up (_, count, _, saved) =
      let (t, run, _, _) =
        change_succeeds law responsive retries (scaled_up count) (scaled_up_keeps law retries count)
          s (restored s.object count) current up refl in
      (some count, t, rw wakeup-change (ground (arith, run)))

  pub replicas_idler-IsLive : IsLive view slot workload_object (replicas_idler c retry) Sound Up
  replicas_idler-IsLive = record {
    set_reference_returns = λ name s current up sound.
        let (t, run, made, still) =
          set_reference_succeeds law responsive retries name s current up in
        (t, run, Sound-Referenced name s.object t.object made sound, still);
    need_idle_returns = need_idle_returns;
    need_wakeup_returns = need_wakeup_returns;
    idle_returns = idle_succeeds;
    wakeup_returns = wakeup_succeeds;
  }

-- ===== src/Idler/Replicas/Keeps.antt =====
-- What the idler of Deployments and StatefulSets keeps of a workload's own number of replicas.
use kidle.Prelude.{String, ◌≡◌, refl, ap, ◌∙◌, true, false, Option, some, arith, ◌⊎◌, inl, inr}
use kidle.Prelude.Int.{ℤ, pos, negsuc, IsInt32, is_positive, is_zero}
use kidle.Exec.{ok}
use kidle.Strconv.{itoa}
use kidle.Meta.{get_annotation}
use kidle.Meta.Laws.{get_annotation-add_annotation}
use kidle.Objects.{Workload, workload_object}
use kidle.Api.{IdlingResource, metadata_idling_resource_reference, metadata_previous_replicas}
use kidle.Cluster.{Cluster, ObjectClient, Slot, IsLawful}
use kidle.Cluster.Retry.{RetryOnConflict, IsRetry}
use kidle.Idler.Change.{Local}
use kidle.Idler.Change.Updated.{IsCurrent}
use kidle.Idler.Object.{set_reference, referenced}
use kidle.Idler.Object.Laws.{meta-referenced, set_reference-cases}
use kidle.Idler.Replicas.{need_idle, need_wakeup, idle, wakeup, replicas_idler}
use kidle.Idler.Replicas.Laws.{idle-ok, wakeup-ok}
use kidle.Idler.Replicas.RoundTrip.{previous_replicas_saved}
use kidle.Idler.Contract.{Preserves}

-- The workload has `n` replicas, or none with `n` saved in the annotation.
abbrev pub Keeps : ℤ → Workload → Type 0
Keeps n o =
    (o.replicas ≡ some n)
    ⊎ ((o.replicas ≡ some (pos 0))
        × (get_annotation o.meta metadata_previous_replicas ≡ some (itoa n)))

Keeps-congr :
    (n : ℤ) (o o' : Workload)
    → o'.replicas ≡ o.replicas
    → get_annotation o'.meta metadata_previous_replicas
      ≡ get_annotation o.meta metadata_previous_replicas
    → Keeps n o
    → Keeps n o'
Keeps-congr n o o' same saved (inl up) = inl (same ∙ up)
Keeps-congr n o o' same saved (inr (down, was)) = inr (same ∙ down, saved ∙ was)

referenced-Keeps :
    (n : ℤ) (name : String) (o o' : Workload)
    → referenced workload_object name o ≡ ok o'
    → Keeps n o
    → Keeps n o'
unfolding referenced
referenced-Keeps n name o o' e = Keeps-congr n o o' (ground arith) (
    rw (meta-referenced workload_object name o o' e) (
      get_annotation-add_annotation o.meta metadata_idling_resource_reference
        metadata_previous_replicas name))

-- A workload that needs `Idle` has its own number of replicas.
need_idle-Keeps :
    (n : ℤ) (instance : IdlingResource) (o : Workload)
    → need_idle instance o ≡ ok true
    → Keeps n o
    → o.replicas ≡ some n
unfolding need_idle
need_idle-Keeps n instance o wish (inl up) = up
need_idle-Keeps n instance o wish (inr (down, saved)) = ground arith

is_positive-is_zero : (n : ℤ) → is_positive n ≡ true → is_zero n ≡ false
is_positive-is_zero (pos k) h = ground arith
is_positive-is_zero (negsuc k) h = ground arith

-- One that needs `Wakeup` has its number saved.
need_wakeup-Keeps :
    (n : ℤ) (instance : IdlingResource) (o : Workload)
    → is_positive n ≡ true
    → need_wakeup instance o ≡ ok true
    → Keeps n o
    → get_annotation o.meta metadata_previous_replicas ≡ some (itoa n)
unfolding need_wakeup
need_wakeup-Keeps n instance o some_wanted wish (inl up) =
    let nonzero : is_zero n ≡ false = is_positive-is_zero n some_wanted in ground arith
need_wakeup-Keeps n instance o some_wanted wish (inr (down, saved)) = saved

module _ {W : Type 0} {view : W → Cluster} {slot : Slot Workload} {c : ObjectClient W Workload}
    (law : IsLawful view slot workload_object c) {retry : RetryOnConflict} (retries : IsRetry retry)
    (n : ℤ) (fits : IsInt32 n) (some_wanted : is_positive n ≡ true) where
  set_reference-Keeps :
      (name : String) (s t : Local W Workload) (u : Unit {0})
      → IsCurrent view slot workload_object s
      → set_reference workload_object c retry name s ≡ (ok u, t)
      → Keeps n s.object
      → Keeps n t.object
  set_reference-Keeps name s t u current e k =
      elim (set_reference-cases law retries name s t u current e) [
        | inl same ↦ rw same k
        | inr made ↦ referenced-Keeps n name s.object t.object made k
      ]

  idle-Keeps :
      (instance : IdlingResource) (s t : Local W Workload) (u : Unit {0})
      → IsCurrent view slot workload_object s
      → need_idle instance s.object ≡ ok true
      → idle c retry s ≡ (ok u, t)
      → Keeps n s.object
      → Keeps n t.object
  idle-Keeps instance s t u current wish e k =
      let (_, idled) = idle-ok law retries s t u current e in
      let same : idled.count ≡ n = cc (idled.had, need_idle-Keeps n instance s.object wish k) in
      inr (idled.empty, idled.annotated metadata_previous_replicas ∙ rw same refl)

  wakeup-Keeps :
      (instance : IdlingResource) (s t : Local W Workload) (p : Option ℤ)
      → IsCurrent view slot workload_object s
      → need_wakeup instance s.object ≡ ok true
      → wakeup c retry s ≡ (ok p, t)
      → Keeps n s.object
      → Keeps n t.object
  wakeup-Keeps instance s t p current wish e k =
      let (_, count, read, _, scaled) = wakeup-ok law retries s t p current e in
      let saved =
        previous_replicas_saved s.object n fits
          (need_wakeup-Keeps n instance s.object some_wanted wish k) in
      let same : count ≡ n = cc (read, saved) in inl (scaled.scaled ∙ ap some same)

  pub replicas_idler-Preserves :
      Preserves view slot workload_object (replicas_idler c retry) (Keeps n)
  replicas_idler-Preserves = record {
    by_reference = set_reference-Keeps;
    by_idle = idle-Keeps;
    by_wakeup = wakeup-Keeps;
  }

-- ===== src/Idler/Replicas/Contract.antt =====
-- The contract of the interface, for the idlers of Deployments and StatefulSets.
use kidle.Prelude.{◌≡◌, refl, ◌∙◌, true, false, Option, some, arith, ◌⊎◌, inl, inr, Option-cases}
use kidle.Prelude.Int.{ℤ, pos, is_positive, is_zero}
use kidle.Exec.{ok}
use kidle.Meta.{get_annotation}
use kidle.Objects.{Workload, workload_object}
use kidle.Api.{IdlingResource, metadata_idling_resource_reference, metadata_previous_replicas}
use kidle.Cluster.{Cluster, ObjectClient, Slot, IsLawful}
use kidle.Cluster.Retry.{RetryOnConflict, IsRetry}
use kidle.Idler.Change.{Local}
use kidle.Idler.Change.Updated.{IsCurrent, Updated}
use kidle.Idler.Object.Laws.{
  set_reference_failed, remove_annotations_failed, set_reference_again, set_reference-ok,
  remove_annotations-ok,
}
use kidle.Idler.Contract.{IsIdler}
use kidle.Idler.Replicas.{need_idle, need_wakeup, previous_replicas, wakeup, replicas_idler}
use kidle.Idler.Replicas.Laws.{idle-ok, idle_failed, wakeup-ok, wakeup_failed}

-- No replicas are wanted.
abbrev pub Asleep : Workload → Type 0
Asleep o = (r : ℤ) × (o.replicas ≡ some r) × (is_positive r ≡ false)

-- Some are, or the number that was saved, which may be 0.
abbrev pub Awake : Workload → Type 0
Awake o = (r : ℤ) × (o.replicas ≡ some r) × ((is_zero r ≡ false) ⊎ (previous_replicas o ≡ ok r))

pub previous_replicas_congr :
    (o n : Workload)
    → get_annotation n.meta metadata_previous_replicas
      ≡ get_annotation o.meta metadata_previous_replicas
    → previous_replicas n ≡ previous_replicas o
unfolding previous_replicas
previous_replicas_congr o n e = rw (e, previous_replicas)

need_idle-Asleep :
    (instance : IdlingResource) (o : Workload)
    → instance.spec.idle ≡ true
    → need_idle instance o ≡ ok false
    → Asleep o
unfolding need_idle
need_idle-Asleep instance o h e = elim (Option-cases o.replicas) [
  | inl missing ↦ ground arith
  | inr (r, has) ↦ (r, has, ground arith)
]

need_idle_rests :
    (instance : IdlingResource) (o : Workload) → Asleep o → need_idle instance o ≡ ok false
unfolding need_idle
need_idle_rests instance o (r, has, low) = ground arith

need_wakeup-Awake :
    (instance : IdlingResource) (o : Workload)
    → instance.spec.idle ≡ false
    → need_wakeup instance o ≡ ok false
    → Awake o
unfolding need_wakeup
need_wakeup-Awake instance o h e = elim (Option-cases o.replicas) [
  | inl missing ↦ ground arith
  | inr (r, has) ↦ (r, has, inl (ground arith))
]

module _ {W : Type 0} {view : W → Cluster} {slot : Slot Workload} {c : ObjectClient W Workload}
    (law : IsLawful view slot workload_object c) {retry : RetryOnConflict}
    (retries : IsRetry retry) where
  wakeup-Awake :
      (s t : Local W Workload) (p : Option ℤ)
      → IsCurrent view slot workload_object s
      → wakeup c retry s ≡ (ok p, t)
      → Updated view slot workload_object s t
        × Awake t.object
        × (get_annotation t.object.meta metadata_idling_resource_reference
            ≡ get_annotation s.object.meta metadata_idling_resource_reference)
  wakeup-Awake s t p current e =
      let (updated, count, saved, _, scaled) = wakeup-ok law retries s t p current e in
      let kept =
        previous_replicas_congr s.object t.object (scaled.annotated metadata_previous_replicas) in
      (
        updated,
        (count, scaled.scaled, inr (kept ∙ saved)),
        scaled.annotated metadata_idling_resource_reference,
      )

  -- The idler of Deployments and of StatefulSets keeps the contract `IsIdler`: each method that
  -- succeeds has stored what it promises and changed no other object, one that fails has changed
  -- none, a workload that needs neither `Idle` nor `Wakeup` is in the state asked for, and one that
  -- is asleep does not need `Idle`.
  pub replicas_idler-IsIdler :
      IsIdler view slot workload_object (replicas_idler c retry) Asleep Awake
  unfolding need_idle need_wakeup
  replicas_idler-IsIdler = record {
    set_reference-ok = set_reference-ok law retries;
    remove_annotations-ok = remove_annotations-ok law retries;
    idle-ok = λ s t u current e.
        let (updated, idled) = idle-ok law retries s t u current e in
        (updated, (pos 0, idled.empty, refl), idled.annotated metadata_idling_resource_reference);
    wakeup-ok = wakeup-Awake;
    idle_not_woken = λ instance o h. rw h;
    woken_not_idle = λ instance o h. rw h;
    asleep = need_idle-Asleep;
    awake = need_wakeup-Awake;
    set_reference_failed = set_reference_failed law retries;
    remove_annotations_failed = remove_annotations_failed law retries;
    idle_failed = idle_failed law retries;
    wakeup_failed = wakeup_failed law retries;
    set_reference_again = set_reference_again workload_object c retry;
    asleep_rests = λ instance o. need_idle_rests instance o;
  }

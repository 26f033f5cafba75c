-- ===== src/Idler/Replicas/RoundTrip.antt =====
-- `Idle` and a later `Wakeup` together. The later call may come in another run of the reconcile
-- loop, which has read the stored workload again.
use kidle.Prelude.{◌≡◌, refl, ap, ◌∙◌, Option, none, some, arith}
use kidle.Prelude.Int.{ℤ, pos, IsInt32, to_int32_of_IsInt32}
use kidle.Exec.{ok}
use kidle.Strconv.{itoa}
use kidle.Strconv.RoundTrip.{atoi-itoa}
use kidle.Meta.{get_annotation}
use kidle.Objects.{Workload, workload_object}
use kidle.Api.{metadata_previous_replicas}
use kidle.Cluster.{Cluster, ObjectClient, Slot, IsLawful}
use kidle.Cluster.Retry.{RetryOnConflict, IsRetry}
use kidle.Idler.Change.{Local}
use kidle.Idler.Change.Updated.{
  IsCurrent, Updated, Updated-trans, Updated-reread, Updated-IsCurrent,
}
use kidle.Idler.Replicas.{previous_replicas, idle, wakeup}
use kidle.Idler.Replicas.Laws.{IsIdled, idle-ok, wakeup-ok}

-- The count that is saved in an annotation is the count that is read.
pub previous_replicas_saved :
    (o : Workload) (count : ℤ)
    → IsInt32 count
    → get_annotation o.meta metadata_previous_replicas ≡ some (itoa count)
    → previous_replicas o ≡ ok count
unfolding previous_replicas
previous_replicas_saved o count fits saved =
    rw (saved, previous_replicas) (rw (atoi-itoa count fits) (rw (to_int32_of_IsInt32 count fits)))

previous_replicas_missing :
    (o : Workload)
    → get_annotation o.meta metadata_previous_replicas ≡ none
    → previous_replicas o ≡ ok (pos 1)
unfolding previous_replicas
previous_replicas_missing o missing = rw (missing, previous_replicas)

previous_replicas-IsIdled :
    (o n : Workload) (count : ℤ)
    → IsInt32 count
    → o.replicas ≡ some count
    → IsIdled o n
    → previous_replicas n ≡ ok count
previous_replicas-IsIdled o n count fits had idled =
    let same : idled.count ≡ count = cc (idled.had) in
    previous_replicas_saved n count fits (idled.annotated metadata_previous_replicas ∙ rw same refl)

module _ {W : Type 0} {view : W → Cluster} {slot : Slot Workload} {c : ObjectClient W Workload}
    (law : IsLawful view slot workload_object c) {retry : RetryOnConflict}
    (retries : IsRetry retry) where
  wakeup-IsIdled :
      (s m u : Local W Workload) (count : ℤ) (p : Option ℤ)
      → Updated view slot workload_object s m
      → IsIdled s.object m.object
      → s.object.replicas ≡ some count
      → IsInt32 count
      → wakeup c retry m ≡ (ok p, u)
      → Updated view slot workload_object s u × (u.object.replicas ≡ some count) × (p ≡ some count)
  wakeup-IsIdled s m u count p first idled had fits wakes =
      let (second, found, saved, returned, scaled) =
        wakeup-ok law retries m u p (Updated-IsCurrent view slot workload_object first) wakes in
      let same : found ≡ count =
        cc (saved, previous_replicas-IsIdled s.object m.object count fits had idled) in
      (
        Updated-trans view slot workload_object first second,
        scaled.scaled ∙ ap some same,
        returned ∙ ap some same,
      )

  -- Round trip: if an `Idle` of a workload with `count` replicas succeeds, and later a `Wakeup`
  -- that finds the workload as the `Idle` stored it succeeds, the stored workload has `count`
  -- replicas again, `count` is returned, and no other object has changed.
  pub wakeup-idle :
      (s t m u : Local W Workload) (count : ℤ) (v : Unit {0}) (p : Option ℤ)
      → IsCurrent view slot workload_object s
      → s.object.replicas ≡ some count
      → IsInt32 count
      → idle c retry s ≡ (ok v, t)
      → m.object ≡ t.object
      → view m.cluster ≡ view t.cluster
      → wakeup c retry m ≡ (ok p, u)
      → Updated view slot workload_object s u × (u.object.replicas ≡ some count) × (p ≡ some count)
  wakeup-idle s t m u count v p current had fits idles read kept wakes =
      let (first, idled) = idle-ok law retries s t v current idles in
      wakeup-IsIdled s m u count p (Updated-reread view slot workload_object read kept first)
        (rw read idled) had fits wakes

  -- A second `Idle` saves the count 0 over the first one's, since the guard of `Idle` compares
  -- pointers: after two successful calls of `Idle`, a `Wakeup` that succeeds scales the workload to
  -- 0, whatever its count was.
  pub idle_twice_forgets :
      (s t u w : Local W Workload) (v v' : Unit {0}) (p : Option ℤ)
      → IsCurrent view slot workload_object s
      → idle c retry s ≡ (ok v, t)
      → idle c retry t ≡ (ok v', u)
      → wakeup c retry u ≡ (ok p, w)
      → (w.object.replicas ≡ some (pos 0)) × (p ≡ some (pos 0))
  idle_twice_forgets s t u w v v' p current once again wakes =
      let (first, idled) = idle-ok law retries s t v current once in
      let between : IsCurrent view slot workload_object t =
        Updated-IsCurrent view slot workload_object first in
      let (_, restored, returned) =
        wakeup-idle t u u w (pos 0) v' p between idled.empty (omega arith) again refl refl wakes in
      (restored, returned)

  -- Of a workload that was never idled, a `Wakeup` that succeeds stores 1 replica, whatever its
  -- count was.
  pub wakeup_without_idle :
      (s t : Local W Workload) (p : Option ℤ)
      → IsCurrent view slot workload_object s
      → get_annotation s.object.meta metadata_previous_replicas ≡ none
      → wakeup c retry s ≡ (ok p, t)
      → Updated view slot workload_object s t × (t.object.replicas ≡ some (pos 1))
  wakeup_without_idle s t p current missing wakes =
      let (updated, found, saved, _, scaled) = wakeup-ok law retries s t p current wakes in
      let one : found ≡ pos 1 = cc (saved, previous_replicas_missing s.object missing) in
      (updated, scaled.scaled ∙ ap some one)

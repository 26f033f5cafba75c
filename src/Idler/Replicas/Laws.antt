-- ===== src/Idler/Replicas/Laws.antt =====
-- What `Idle` and `Wakeup` of a Deployment or a StatefulSet store.
use kidle.Prelude.{String, ◌≡◌, refl, false, Option, none, some, arith, ◌==◌, if◌then◌else◌}
use kidle.Prelude.Int.{ℤ, pos}
use kidle.Exec.{Result, ok, err, panic}
use kidle.Strconv.{itoa}
use kidle.Meta.{add_annotation, get_annotation}
use kidle.Meta.Laws.{get_annotation-add_annotation}
use kidle.Objects.{Workload, workload_object}
use kidle.Api.{metadata_previous_replicas, metadata_expected_state}
use kidle.Cluster.{Cluster, ObjectClient, Slot, is_ok, IsLawful}
use kidle.Cluster.Retry.{RetryOnConflict, IsRetry}
use kidle.Idler.Change.{Local, change}
use kidle.Idler.Change.Updated.{
  IsCurrent, Updated, KeepsIdentity, change-Updated, change-view_failed,
}
use kidle.Idler.Replicas.Guards.{idle-change, woken_up, wakeup-change}
use kidle.Idler.Replicas.{scaled_down, idled, scaled_up, previous_replicas, idle, wakeup}

-- `n` is `o` idled: no replicas, the count of `o` saved, 0 as the expected state, and every other
-- annotation as it was.
pub record IsIdled (o n : Workload) : Type 0 where
  pub count : ℤ
  pub had : o.replicas ≡ some count
  pub empty : n.replicas ≡ some (pos 0)
  pub annotated :
      (a : String)
      → get_annotation n.meta a ≡ (
          if metadata_expected_state == a
          then some "0"
          else if metadata_previous_replicas == a
          then some (itoa count)
          else get_annotation o.meta a)

-- `n` is `o` scaled to `count`: the count is the expected state, and every other annotation is as
-- it was.
pub record IsScaledTo (count : ℤ) (o n : Workload) : Type 0 where
  pub scaled : n.replicas ≡ some count
  pub annotated :
      (a : String)
      → get_annotation n.meta a
        ≡ (if metadata_expected_state == a then some (itoa count) else get_annotation o.meta a)

idled-IsIdled : (o n : Workload) (r : Option ℤ) → o.replicas ≡ r → idled o ≡ ok n → IsIdled o n
unfolding idled
idled-IsIdled o n none h e = ground arith
idled-IsIdled o n (some r) h e =
    let same : scaled_down o r ≡ n = ground arith in
    record {
      count = r;
      had = h;
      empty = rw (← same) refl;
      annotated = λ a. rw (← same) (simp get_annotation-add_annotation);
    }

scaled_up-IsScaledTo :
    (count : ℤ) (o n : Workload) → scaled_up count o ≡ ok n → IsScaledTo count o n
unfolding scaled_up
scaled_up-IsScaledTo count o n e =
    let m = add_annotation o.meta metadata_expected_state (itoa count) in
    let same : record { meta = m; replicas = some count } ≡ n = cc in
    record {
      scaled = rw (← same) refl;
      annotated = λ a. rw (← same) (simp get_annotation-add_annotation);
    }

module _ {W : Type 0} {view : W → Cluster} {slot : Slot Workload} {c : ObjectClient W Workload}
    (law : IsLawful view slot workload_object c) {retry : RetryOnConflict}
    (retries : IsRetry retry) where
  pub idled_keeps : KeepsIdentity view slot workload_object idled
  unfolding idled add_annotation
  idled_keeps o o' e = ground arith

  pub scaled_up_keeps : (count : ℤ) → KeepsIdentity view slot workload_object (scaled_up count)
  unfolding scaled_up add_annotation
  scaled_up_keeps count o o' e = ground arith

  -- An `Idle` that succeeds stores the workload idled: no replicas, the count saved in an
  -- annotation, 0 as the expected state, every other annotation kept. It changes no other object.
  pub idle-ok :
      (s t : Local W Workload) (u : Unit {0})
      → IsCurrent view slot workload_object s
      → idle c retry s ≡ (ok u, t)
      → Updated view slot workload_object s t × IsIdled s.object t.object
  idle-ok s t u current e =
      let (updated, made) =
        change-Updated law retries idled idled_keeps s t u current (rw idle-change at e) in
      (updated, idled-IsIdled s.object t.object s.object.replicas refl made)

  -- An `Idle` that fails, by an error or a panic, changes no stored object.
  pub idle_failed :
      (s t : Local W Workload) (r : Result (Unit {0}))
      → idle c retry s ≡ (r, t)
      → is_ok r ≡ false
      → view t.cluster ≡ view s.cluster
  idle_failed s t r e = change-view_failed law retries idled idled_keeps s t r (rw idle-change at e)

  -- The change that a `Wakeup` makes once the saved count is read.
  wakeup_runs :
      (s t : Local W Workload) (p : Option ℤ) (count : ℤ)
      → previous_replicas s.object ≡ ok count
      → woken_up c retry s ≡ (ok p, t)
      → (change workload_object c retry (scaled_up count) s ≡ (ok tt, t)) × (p ≡ some count)
  wakeup_runs s t p count g e = ground arith

  wakeup-ok_at :
      (s t : Local W Workload) (p : Option ℤ) (saved : Result ℤ)
      → previous_replicas s.object ≡ saved
      → IsCurrent view slot workload_object s
      → woken_up c retry s ≡ (ok p, t)
      → Updated view slot workload_object s t
        × (count : ℤ) × (previous_replicas s.object ≡ ok count)
        × (p ≡ some count)
        × IsScaledTo count s.object t.object
  wakeup-ok_at s t p (ok count) g current e =
      let (run, returned) = wakeup_runs s t p count g e in
      let (updated, made) =
        change-Updated law retries (scaled_up count) (scaled_up_keeps count) s t tt current run in
      (updated, count, g, returned, scaled_up-IsScaledTo count s.object t.object made)
  wakeup-ok_at s t p (err m) g current e = ground arith
  wakeup-ok_at s t p (panic m) g current e = ground arith

  -- A `Wakeup` that succeeds stores the workload scaled to the count that the code computes from the
  -- saved annotation, with this count as the expected state, and returns the count. It changes no
  -- other object.
  pub wakeup-ok :
      (s t : Local W Workload) (p : Option ℤ)
      → IsCurrent view slot workload_object s
      → wakeup c retry s ≡ (ok p, t)
      → Updated view slot workload_object s t
        × (count : ℤ) × (previous_replicas s.object ≡ ok count)
        × (p ≡ some count)
        × IsScaledTo count s.object t.object
  wakeup-ok s t p current e =
      wakeup-ok_at s t p (previous_replicas s.object) refl current (rw wakeup-change at e)

  wakeup_failed_at :
      (s t : Local W Workload) (r : Result (Option ℤ)) (saved : Result ℤ)
      → previous_replicas s.object ≡ saved
      → woken_up c retry s ≡ (r, t)
      → is_ok r ≡ false
      → view t.cluster ≡ view s.cluster
  wakeup_failed_at s t r (ok count) g e h =
      let (q, x) = change workload_object c retry (scaled_up count) s in
      ground
        (arith, change-view_failed law retries (scaled_up count) (scaled_up_keeps count) s x q refl)
  wakeup_failed_at s t r (err m) g e h = ground arith
  wakeup_failed_at s t r (panic m) g e h = ground arith

  -- A `Wakeup` that fails changes no stored object, also where the saved count cannot be read.
  pub wakeup_failed :
      (s t : Local W Workload) (r : Result (Option ℤ))
      → wakeup c retry s ≡ (r, t)
      → is_ok r ≡ false
      → view t.cluster ≡ view s.cluster
  wakeup_failed s t r e =
      wakeup_failed_at s t r (previous_replicas s.object) refl (rw wakeup-change at e)

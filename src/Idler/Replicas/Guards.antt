-- ===== src/Idler/Replicas/Guards.antt =====
-- The guards of `Idle` and `Wakeup` compare addresses, and hold always.
use kidle.Prelude.{◌≡◌, refl, Option, some}
use kidle.Prelude.Int.{ℤ, pos}
use kidle.Exec.{Result, ok, err, panic, Exec, pure, ◌>>=◌, ◌>>◌}
use kidle.Objects.{Workload, workload_object}
use kidle.Cluster.{ObjectClient}
use kidle.Cluster.Retry.{RetryOnConflict}
use kidle.Idler.Change.{Local, change}
use kidle.Pointer.Laws.{differs_from_new-int32}
use kidle.Idler.Replicas.{idled, scaled_up, previous_replicas, idle, wakeup}

module _ {W : Type 0} (c : ObjectClient W Workload) (retry : RetryOnConflict) where
  pub idle-change : (s : Local W Workload) → idle c retry s ≡ change workload_object c retry idled s
  unfolding idle
  idle-change s = rw (differs_from_new-int32 s.object.replicas (pos 0)) refl

  -- `Wakeup` with the guard taken.
  abbrev pub woken_up : Exec (Local W Workload) (Option ℤ)
  woken_up = do
    previous ← λ s. (previous_replicas s.object, s)
    change workload_object c retry (scaled_up previous)
    pure (some previous)

  wakeup-change_at :
      (s : Local W Workload) (saved : Result ℤ)
      → previous_replicas s.object ≡ saved
      → wakeup c retry s ≡ woken_up s
  unfolding wakeup
  wakeup-change_at s (ok count) g = rw (g, differs_from_new-int32 s.object.replicas count) refl
  wakeup-change_at s (err e) g = rw g refl
  wakeup-change_at s (panic m) g = rw g refl

  pub wakeup-change : (s : Local W Workload) → wakeup c retry s ≡ woken_up s
  wakeup-change s = wakeup-change_at s _ refl
